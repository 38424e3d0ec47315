-- ===== src/Buffer/MsghdrVec.antt =====
-- src/util/msghdr_vec.rs: the buffers of one thread while they are prepared. The builder methods
-- take the vector and return it.
use nperf.Base.{
  ℕ, zero, suc, List, [], ◌∷◌, map, Option, none, some, Outcome, ok, fault, panicked, ◌>>=◌, ◌%◌,
  u32_mod,
}
use nperf.Config.Floats.{Floats}
use nperf.Buffer.Msghdr
use nperf.Buffer.Msghdr.{WrapperMsghdr, SockaddrIn}

pub record MsghdrVec : Type 0 where
  pub msghdr_vec : List WrapperMsghdr
  pub datagram_size : ℕ
  pub packets_amount_per_msghdr : ℕ

abbrev expect : Option WrapperMsghdr → Outcome WrapperMsghdr
expect none = fault panicked
expect (some w) = ok w

-- `expect` of a new buffer, `size` times.
unfoldable pub new_msghdrs : Floats → ℕ → ℕ → ℕ → Outcome (List WrapperMsghdr)
unfolding Msghdr.new
new_msghdrs fl zero mss datagram_size = ok []
new_msghdrs fl (suc n) mss datagram_size = Msghdr.new fl mss datagram_size >>= λ w.
    expect w >>= λ w'. new_msghdrs fl n mss datagram_size >>= λ ws. ok (w' ∷ ws)

-- `first().unwrap()` panics if there is no buffer.
unfoldable pub first_amount : List WrapperMsghdr → Outcome ℕ
first_amount [] = fault panicked
first_amount (w ∷ ws) = ok w.packets_amount

unfoldable pub new : Floats → ℕ → ℕ → ℕ → Outcome MsghdrVec
unfolding new_msghdrs first_amount
new fl size mss datagram_size = do
  ws ← new_msghdrs fl size mss (datagram_size % u32_mod)
  amount ← first_amount ws
  ok (record { msghdr_vec = ws; datagram_size = datagram_size; packets_amount_per_msghdr = amount })

unfoldable pub with_cmsg_buffer : MsghdrVec → MsghdrVec
with_cmsg_buffer v = record v { msghdr_vec = map Msghdr.add_cmsg_buffer v.msghdr_vec }

unfoldable pub add_message_headers : ℕ → List WrapperMsghdr → Outcome (List WrapperMsghdr)
add_message_headers test_id [] = ok []
add_message_headers test_id (w ∷ ws) = Msghdr.add_message_header test_id 0 w >>= λ r.
    add_message_headers test_id ws >>= λ ws'. ok (r.1 ∷ ws')

unfoldable pub with_message_header : ℕ → MsghdrVec → Outcome MsghdrVec
unfolding add_message_headers
with_message_header test_id v =
    add_message_headers test_id v.msghdr_vec >>= λ ws. ok (record v { msghdr_vec = ws })

unfoldable pub with_random_payload : MsghdrVec → MsghdrVec
with_random_payload v = record v {
  msghdr_vec = map Msghdr.fill_with_repeating_pattern v.msghdr_vec;
}

unfoldable pub with_target_address : SockaddrIn → MsghdrVec → MsghdrVec
with_target_address address v = record v {
  msghdr_vec = map (Msghdr.set_address address) v.msghdr_vec;
}
