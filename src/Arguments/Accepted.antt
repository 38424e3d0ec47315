-- ===== src/Arguments/Accepted.antt =====
-- What accepted arguments of src/command_parser.rs guarantee to the rest of the program.
use nperf.Base.{
  Outcome, err, fault, ℕ, zero, suc, ◌*◌, ◌<◌, ◌≤◌, ◌≡◌, refl, ap, sym, subst, Bool, true, false,
  not, ◌||◌, ◌&&◌, inl, inr, ◌⊎◌, mul32, Option, none, some, arith, ok, ◌>>=◌, bind_ok, ok_inj,
  ==_iff, ltb, ◌==◌, if◌then◌else◌,
}
use Prim.Native.String.{String}
use nperf.Config.{
  Parameter, SocketOptions, UringTaskWork, is_io_uring, is_normal_mode, is_zerocopy, is_sender,
  is_receiver, max_udp_datagram_size, uring_max_ring_size, is_default_work,
}
use nperf.Config.Floats.{Floats, zero_f64}
use nperf.Uring.FillMode.{IsSizedRing}
use nperf.Net.Parse.{parse_ipv4}
use nperf.Arguments.{
  NPerf, is_power_from, is_power_of_two, parameter_check, adjust, parse_parameter,
  parse_uring_parameter, parse_socket_options, settings, does_not_fit, bandwidth_too_big,
  has_more_than_one_decimal,
}

is_power_from-pos : (k p n : ℕ) → 0 < p → is_power_from k p n ≡ true → 0 < n
unfolding is_power_from
is_power_from-pos zero p n h e = cc
is_power_from-pos (suc k) p n h e =
    ground (arith, is_power_from-pos k (p * 2) n (omega arith), ==_iff p n)

is_power_of_two-pos : (n : ℕ) → is_power_of_two n ≡ true → 0 < n
unfolding is_power_of_two
is_power_of_two-pos n e = is_power_from-pos 32 1 n (omega arith) e

-- An accepted check has passed the tests of the sizes.
record Passed (a : NPerf) (p : Parameter) : Type 0 where
  size : p.datagram_size ≤ max_udp_datagram_size
  power : is_power_of_two a.uring_ring_size ≡ true
  burst : p.uring_parameter.burst_size ≤ a.uring_ring_size
  ring : a.uring_ring_size ≤ uring_max_ring_size

-- What the rest of the program relies on: the sizes of the ring, a datagram that UDP can carry, no
-- task work under a polling kernel thread, such a thread where it is to be shared, and in the normal
-- mode of io_uring as many buffers as the ring's parameters say.
pub record IsAccepted (a : NPerf) (p : Parameter) : Type 0 where
  pub sized : IsSizedRing p.uring_parameter
  pub datagram : p.datagram_size ≤ max_udp_datagram_size
  pub task_work :
      (p.uring_parameter.sqpoll ≡ false) ⊎ (p.uring_parameter.task_work ≡ UringTaskWork.default)
  pub sqpoll : (a.uring_sqpoll_shared ≡ false) ⊎ (p.uring_parameter.sqpoll ≡ true)
  pub pool :
      ((is_io_uring a.io_model && is_normal_mode a.uring_mode) ≡ false)
      ⊎ (p.packet_buffer_size ≡ p.uring_parameter.buffer_size)

-- A refusing test has not refused.
if_none :
    {A : Type 0} (b : Bool) (x : Option A) (q : A)
    → (if b then none else x) ≡ some q
    → (b ≡ false) × (x ≡ some q)
if_none true x q e = cc
if_none false x q e = (refl, e)

ltb-false : (n m : ℕ) → ltb n m ≡ false → m ≤ n
ltb-false n m e = ground arith

not-false : (b : Bool) → not b ≡ false → b ≡ true
not-false true e = refl
not-false false e = cc

some_inj : {A : Type 0} {x y : A} → some x ≡ some y → x ≡ y
some_inj e = cc

no_work :
    (sqpoll : Bool) (w : UringTaskWork)
    → (sqpoll ≡ false)
      ⊎ ((if sqpoll && not (is_default_work w) then UringTaskWork.default else w)
          ≡ UringTaskWork.default)
no_work false w = inl refl
no_work true UringTaskWork.default = inr refl
no_work true UringTaskWork.coop = inr refl
no_work true UringTaskWork.defer = inr refl
no_work true UringTaskWork.coop_defer = inr refl

polls : (own shared : Bool) → (shared ≡ false) ⊎ ((own || (shared && not own)) ≡ true)
polls own false = inl refl
polls true true = inr refl
polls false true = inr refl

pools :
    (normal zc : Bool) (ring own : ℕ)
    → (normal ≡ false) ⊎ ((if normal || zc then ring else own) ≡ ring)
pools false zc ring own = inl refl
pools true zc ring own = inr refl

module _ (fl f32 : Floats) (is_default_file : String → Bool) (a : NPerf) where
  parameter_check-Passed :
      (p q : Parameter)
      → parameter_check fl f32 is_default_file a p ≡ some q
      → Passed a p × (q ≡ adjust fl f32 is_default_file a p)
  unfolding parameter_check
  parameter_check-Passed p q e =
      let (size, e1) = if_none (ltb max_udp_datagram_size p.datagram_size) _ q e in
      let (power, e2) = if_none (not (is_power_of_two a.uring_ring_size)) _ q e1 in
      let (burst, e3) = if_none (ltb a.uring_ring_size p.uring_parameter.burst_size) _ q e2 in
      let (ring, e4) = if_none (ltb uring_max_ring_size a.uring_ring_size) _ q e3 in
      let (_, e5) =
        if_none (is_io_uring a.io_model && (is_zerocopy a.uring_mode && not (is_sender p.mode))) _ q
          e4 in
      let (_, e6) = if_none (does_not_fit fl f32 a) _ q e5 in
      let (_, e7) =
        if_none (fl.flt zero_f64 a.interval && (a.time == 0 && is_receiver a.mode)) _ q e6 in
      let (_, e8) = if_none (has_more_than_one_decimal fl f32 a.interval) _ q e7 in
      let (_, e9) = if_none (bandwidth_too_big fl f32 a) _ q e8 in
      (
        record {
          size = ltb-false _ _ size;
          power = not-false _ power;
          burst = ltb-false _ _ burst;
          ring = ltb-false _ _ ring;
        },
        sym (some_inj e9),
      )

  sized_ring :
      (p : Parameter)
      → p.uring_parameter ≡ parse_uring_parameter fl f32 a
      → Passed a p
      → IsSizedRing (adjust fl f32 is_default_file a p).uring_parameter
  unfolding adjust parse_uring_parameter
  sized_ring p e h =
      let size : p.uring_parameter.ring_size ≡ a.uring_ring_size = ap (λ u. u.ring_size) e in
      let room : p.uring_parameter.buffer_size ≡ mul32 a.uring_ring_size 4 =
        ap (λ u. u.buffer_size) e in
      record {
        burst = omega (arith, h.burst);
        buffers = omega (arith, h.ring);
        ring = omega (arith, h.ring);
        ring_pos = omega (arith, is_power_of_two-pos a.uring_ring_size h.power);
      }

  adjust-IsAccepted :
      (p : Parameter)
      → p.uring_parameter ≡ parse_uring_parameter fl f32 a
      → Passed a p
      → IsAccepted a (adjust fl f32 is_default_file a p)
  unfolding adjust parse_uring_parameter
  adjust-IsAccepted p e h = record {
    sized = sized_ring p e h;
    datagram = h.size;
    task_work =
        no_work (p.uring_parameter.sqpoll || (a.uring_sqpoll_shared && not a.uring_sqpoll))
          p.uring_parameter.task_work;
    sqpoll = rw e (polls a.uring_sqpoll a.uring_sqpoll_shared);
    pool =
        pools (is_io_uring a.io_model && is_normal_mode a.uring_mode) (is_zerocopy a.uring_mode)
          p.uring_parameter.buffer_size p.packet_buffer_size;
  }

  accepted :
      (ip : ℕ) (options : SocketOptions) (p : Parameter)
      → parameter_check fl f32 is_default_file a (settings fl f32 a ip options) ≡ some p
      → IsAccepted a p
  unfolding settings
  accepted ip options p e =
      let (passed, same) = parameter_check-Passed (settings fl f32 a ip options) p e in
      subst (IsAccepted a) (sym same) (adjust-IsAccepted (settings fl f32 a ip options) refl passed)

-- Arguments that are accepted give settings with a ring of checked sizes (a burst of at most its 2048
-- entries, four buffers for each), datagrams that UDP can carry, no task work under a polling kernel
-- thread, such a thread where one is to be shared, and in the normal mode of io_uring as many packet
-- buffers as the ring has.
pub parse_parameter-IsAccepted :
    (fl f32 : Floats) (from_str : String → Option ℕ) (is_default_file : String → Bool) (a : NPerf)
    (p : Parameter)
    → parse_parameter fl f32 from_str is_default_file a ≡ ok (some p)
    → IsAccepted a p
unfolding parse_parameter
parse_parameter-IsAccepted fl f32 from_str is_default_file a p e =
    go a.markdown_help (parse_ipv4 from_str a.ip) e
  where
    checked : ℕ → SocketOptions → Option Parameter
    checked ip options = parameter_check fl f32 is_default_file a (settings fl f32 a ip options)

    go :
        (help : Bool) (ip : Outcome ℕ)
        → (if help then ok none else elim ip [
          | err x ↦ ok none
          | fault x ↦ fault x
          | ok ip ↦ parse_socket_options fl f32 a a.mode >>= λ options. ok (checked ip options)
        ])
          ≡ ok (some p)
        → IsAccepted a p
    go true ip e = cc
    go false (err x) e = cc
    go false (fault x) e = cc
    go false (ok ip) e =
        let (options, parsed, done) =
          bind_ok (parse_socket_options fl f32 a a.mode) (λ options. ok (checked ip options))
            (some p) e in
        accepted fl f32 is_default_file a ip options p (ok_inj done)
