-- ===== src/Base/Outcomes.antt =====
-- Results of calls. A `Result` of the program fails with a static text, one constructor each; a
-- panic ends the thread, and a read outside of an allocation is undefined.

use mathlib.Core.Option.{Option, none, some}
use mathlib.Core.Path.{◌≡◌, refl}
use mathlib.Core.Logic.{◌⊎◌, inl, inr}

pub data Error : Type 0 where
  eagain econnrefused emsgsize timeout : Error
  init_message_received last_message_received : Error
  test_id_too_big : Error
  failed_to_send_data failed_to_receive_data buffer_is_empty start_the_receiver_first : Error
  buffer_pointer_out_of_bounds msghdr_out_of_bounds no_buffers_left error_creating_buffer : Error
  io_uring_error failed_to_create_io_uring : Error
  recvmsg_multi_not_supported provide_buffers_not_supported sendmsg_zc_not_supported : Error
  invalid_uring_mode_receiver invalid_uring_mode_sender : Error
  select_failed poll_failed close_failed bind_failed connect_failed : Error
  socket_option_failed get_socket_option_failed : Error
  get_socket_flags_failed set_socket_flags_failed : Error
  invalid_buffer_type buffer_size_not_set failed_to_get_mss : Error
  numa_index_out_of_bounds no_numa_cpu_set no_core_in_cpu_set binding_failed : Error
  error_running_app invalid_ipv4_address : Error

pub data Fault : Type 0 where
  panicked undefined : Fault

pub data Outcome {ℓ} (A : Type ℓ) : Type ℓ where
  ok : A → Outcome A
  err : Error → Outcome A
  fault : Fault → Outcome A

infixl 5 ◌>>=◌ ◌>>◌
abbrev pub ◌>>=◌ {ℓ κ} : {A : Type ℓ} {B : Type κ} → Outcome A → (A → Outcome B) → Outcome B
ok a >>= f = f a
err e >>= f = err e
fault x >>= f = fault x

abbrev pub ◌>>◌ {ℓ} : {B : Type ℓ} → Outcome (Unit {0}) → Outcome B → Outcome B
m >> k = m >>= λ _. k

-- `unwrap` and `expect`
abbrev pub unwrap {ℓ} : {A : Type ℓ} → Outcome A → Outcome A
unwrap (err e) = fault panicked
unwrap o = o

abbrev pub unwrap_some {ℓ} : {A : Type ℓ} → Option A → Outcome A
unwrap_some none = fault panicked
unwrap_some (some a) = ok a

-- A success of a chain is a success of both of its steps.
pub bind_ok {ℓ κ} :
    {A : Type ℓ} {B : Type κ} (o : Outcome A) (f : A → Outcome B) (b : B)
    → (o >>= f) ≡ ok b
    → (a : A) × (o ≡ ok a) × (f a ≡ ok b)
bind_ok (ok a) f b e = (a, refl, e)
bind_ok (err x) f b e = cc
bind_ok (fault x) f b e = cc

pub ok_inj {ℓ} : {A : Type ℓ} {a b : A} → ok a ≡ ok b → a ≡ b
ok_inj e = cc

-- An outcome is one of three.
pub Outcome-cases {ℓ} :
    {A : Type ℓ} (o : Outcome A)
    → ((a : A) × (o ≡ ok a)) ⊎ (((e : Error) × (o ≡ err e)) ⊎ ((x : Fault) × (o ≡ fault x)))
Outcome-cases (ok a) = inl (a, refl)
Outcome-cases (err e) = inr (inl (e, refl))
Outcome-cases (fault x) = inr (inr (x, refl))
