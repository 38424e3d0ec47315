-- ===== src/Transfer/Arriving.antt =====
-- A sequence of calls of recv_messages of src/node/receiver.rs that bring the messages of one test.
use nperf.Base.{
  ◌&&◌, ◌==◌, if◌then◌else◌, ℕ, zero, suc, ◌*◌, ◌/◌, ◌^◌, ◌≤◌, ◌<◌, ◌≡◌, refl, ap, sym, ◌∙◌, List,
  [], ◌∷◌, ◌++◌, map, length, get_elem?, set, get_elem?-set_self, get_elem?-none, arith, some, ok,
  err, fault, Outcome, Bool-cases, inl, inr,
}
use native.Mathlib.Decide.{dec_lt}
use nperf.Node.Receiver.Measurements.Arrivals.{parse_known}
use nperf.Config.{max_test_id, mmsg}
use nperf.Config.Floats.{F64, Floats}
use nperf.Net.Header.{measurement, discriminant, Slice}
use nperf.Net.Header.RoundTrip.{Holds, getters-Holds, word_at, word_at-part}
use nperf.Net.Socket.{Answer, returned, failed}
use nperf.Statistic.{Statistic, Measurement, set_start_timestamp}
use nperf.Buffer.Msghdr.{buffer_of}
use nperf.Buffer.PacketBuffer.{reset_msghdr_fields, Mmsghdr}
use nperf.Packets.{process_packet_number, get_total_bytes}
use nperf.Packets.Accounting.{receive_numbers}
use nperf.Node.Receiver.{Receiver, Reception}
use nperf.Node.Receiver.Measurements.{first_packet}
use nperf.Node.Receiver.Recv.{
  recv_messages, take_message, count_msghdrs, read_header, count_received,
}
use nperf.Transfer.Datagrams.{datagrams_of, id_of}
use nperf.Transfer.Counting.{
  IsWhole, AllWhole, datagrams_in, datagrams_among, process_msghdrs-AllWhole,
}
use nperf.Transfer.Shuffled.{All}

-- The same counts of lost, reordered and duplicated packets.
pub record Agrees (s x : Statistic) : Type 0 where
  pub omitted : x.amount_omitted_datagrams ≡ s.amount_omitted_datagrams
  pub reordered : x.amount_reordered_datagrams ≡ s.amount_reordered_datagrams
  pub duplicated : x.amount_duplicated_datagrams ≡ s.amount_duplicated_datagrams

process_packet_number-Agrees :
    (id next : ℕ) (s x : Statistic)
    → Agrees s x
    → ((process_packet_number id next x).0 ≡ (process_packet_number id next s).0)
      × Agrees (process_packet_number id next s).1 (process_packet_number id next x).1
unfolding process_packet_number
process_packet_number-Agrees id next s x a = ground (arith, a.omitted, a.reordered, a.duplicated)

pub receive_numbers-Agrees :
    (ids : List ℕ) (next : ℕ) (s x : Statistic)
    → Agrees s x
    → ((receive_numbers ids next x).0 ≡ (receive_numbers ids next s).0)
      × Agrees (receive_numbers ids next s).1 (receive_numbers ids next x).1
unfolding receive_numbers
receive_numbers-Agrees [] next s x a = (refl, a)
receive_numbers-Agrees (id ∷ ids) next s x a =
    let (e, b) = process_packet_number-Agrees id next s x a in
    rw (receive_numbers, e) (receive_numbers-Agrees ids _ _ _ b)

-- A datagram of a measurement of test `t`.
abbrev pub Speaks : ℕ → List ℕ → Type 0
Speaks t d = (word_at d 0 ≡ discriminant measurement) × (word_at d 8 ≡ t)

-- The messages that a call takes.
abbrev pub amount_of : Answer → ℕ
amount_of (returned n) = n
amount_of (failed errno) = 0

abbrev pub messages : Reception → Receiver → List Mmsghdr
messages k r = k.wrote r.packet_buffer.mmsghdr_vec

-- The call brings at least one message, all of whole datagrams, into buffers that are long enough.
pub record Delivers (size : ℕ) (k : Reception) (r : Receiver) : Type 0 where
  pub others : ℕ
  pub answered : k.answer ≡ returned (suc others)
  pub first : Mmsghdr
  pub next : List Mmsghdr
  pub there : messages k r ≡ first ∷ next
  pub room : first.msg_len ≤ first.msg_hdr.iov_len
  pub whole : AllWhole size (suc others) (messages k r)

-- The receiver at a receiving call: with GRO, the fields of the buffers are reset before the first packet.
abbrev pub prepared : Receiver → Receiver
prepared r =
    if r.parameter.socket_options.gro && r.next_packet_id == 0
    then record r { packet_buffer = reset_msghdr_fields r.packet_buffer }
    else r

module _ (fl : Floats) where
  -- The calls of recv_messages one after the other, up to one that is no success.
  unfoldable pub receive_all : List (Reception × F64) → Receiver → Outcome (Unit {0}) × Receiver
  receive_all [] r = (ok tt, r)
  receive_all ((k, now) ∷ ks) r =
      let t = recv_messages fl k now r in
      let rest = receive_all ks t.1 in
      elim t.0 [ ok u ↦ rest | err e ↦ (err e, t.1) | fault x ↦ (fault x, t.1) ]

  -- The datagrams that they take.
  abbrev pub arrived : ℕ → List (Reception × F64) → Receiver → List (List ℕ)
  arrived size [] r = []
  arrived size ((k, now) ∷ ks) r =
      datagrams_among size (amount_of k.answer) (messages k (prepared r))
      ++ arrived size ks (recv_messages fl k now r).1

  abbrev pub AllDeliver : ℕ → List (Reception × F64) → Receiver → Type 0
  AllDeliver size [] r = Unit {0}
  AllDeliver size ((k, now) ∷ ks) r =
      Delivers size k (prepared r) × AllDeliver size ks (recv_messages fl k now r).1

-- What the receiver has counted for test `t` after the datagrams with `ids`, from the statistic `s`.
pub record IsCounting (t : ℕ) (s : Statistic) (ids : List ℕ) (r : Receiver) : Type 0 where
  pub current : Measurement
  pub known : get_elem? r.measurements t ≡ some current
  pub next : r.next_packet_id ≡ (receive_numbers ids 0 s).0
  pub function : r.exchange_function ≡ mmsg
  pub agrees : Agrees (receive_numbers ids 0 s).1 current.statistic
  pub amount : current.statistic.amount_datagrams ≡ length ids

first_datagram :
    (t size n : ℕ) (base : List ℕ)
    → 24 ≤ size
    → 0 < n
    → All (Speaks t) (datagrams_of size n base)
    → (word_at base 0 ≡ discriminant measurement) × (word_at base 8 ≡ t)
first_datagram t size zero base big l h = absurd (omega arith)
first_datagram t size (suc n) base big l h = (
  sym (word_at-part base 0 size 0 (omega arith)) ∙ h.0.0,
  sym (word_at-part base 0 size 8 (omega arith)) ∙ h.0.1,
)

-- The first message of a call says its test and its type.
pub read_first :
    (t size : ℕ) (m : Mmsghdr)
    → 24 ≤ size
    → IsWhole size m
    → m.msg_len ≤ m.msg_hdr.iov_len
    → All (Speaks t) (datagrams_in size m)
    → read_header (buffer_of m.msg_hdr) ≡ ok (t, measurement)
read_first t size m big w room spoken =
    let base = m.msg_hdr.iov_base in
    let (kind, test) = first_datagram t size (m.msg_len / size) base big w.some_datagram spoken in
    let long : 24 ≤ m.msg_len =
      omega (arith, w.whole, at_least (m.msg_len / size) w.some_datagram) in
    let holds : Holds base 0 measurement t (word_at base 16) = record {
      room = omega (arith, w.inside);
      kind = kind;
      test = test;
      packet = refl;
    } in
    let (type, id, _) =
      getters-Holds measurement t (word_at base 16) (buffer_of m.msg_hdr) holds (omega arith) in
    rw (id, type) refl
  where
    at_least : (n : ℕ) → 0 < n → size ≤ n * size
    at_least n l = grind arith

pub first_packet-counters :
    (now : F64) (m : Measurement)
    → Agrees m.statistic (first_packet now m).statistic
      × ((first_packet now m).statistic.amount_datagrams ≡ m.statistic.amount_datagrams)
unfolding first_packet set_start_timestamp
first_packet-counters now m = elim (Bool-cases m.first_packet_received) [
  | inl e ↦
      rw (e, first_packet) (record { omitted = refl; reordered = refl; duplicated = refl }, refl)
  | inr e ↦
      rw (e, first_packet) (record { omitted = refl; reordered = refl; duplicated = refl }, refl)
]

pub get_elem?-below :
    (t : ℕ) (ms : List Measurement) (m : Measurement) → get_elem? ms t ≡ some m → t < length ms
get_elem?-below t ms m e = elim (dec_lt t (length ms)) [
  | yes l ↦ l
  | no n ↦ cc (get_elem?-none ms t (omega arith))
]

module _ (fl : Floats) where
  -- A message of a known test goes to its measurement.
  pub take_message-known :
      (buffer : Slice) (count : ℕ → Measurement → Receiver → Outcome Receiver) (now : F64)
      (r x : Receiver) (t : ℕ) (m : Measurement)
      → t < max_test_id
      → read_header buffer ≡ ok (t, measurement)
      → get_elem? r.measurements t ≡ some m
      → count t
          (first_packet now m)
          (record r { measurements = set r.measurements t (first_packet now m) })
        ≡ ok x
      → take_message fl (ok buffer) count now r ≡ (ok tt, x)
  unfolding take_message
  take_message-known buffer count now r x t m small header known counted =
      let ms = r.measurements in
      let there = get_elem?-below t ms m known in
      rw
        (
          header,
          parse_known fl t now r.parameter ms m small known,
          get_elem?-set_self ms t (first_packet now m) there,
          counted,
        )
        refl

  -- The messages of a call, in the measurement of their test.
  pub count_msghdrs-AllWhole :
      (size amount t : ℕ) (m : Measurement) (r : Receiver)
      → 24 ≤ size
      → AllWhole size amount r.packet_buffer.mmsghdr_vec
      → length (datagrams_among size amount r.packet_buffer.mmsghdr_vec) < 2 ^ 64
      → let ids = map id_of (datagrams_among size amount r.packet_buffer.mmsghdr_vec) in
        let q = receive_numbers ids r.next_packet_id m.statistic in
        (ms : List Mmsghdr) × (bytes : ℕ) × (count_msghdrs fl amount t m r
          ≡ ok (record (count_received t m (length ids) bytes q.1 r) {
            next_packet_id = q.0;
            packet_buffer = record r.packet_buffer { mmsghdr_vec = ms };
          }))
  unfolding count_msghdrs
  count_msghdrs-AllWhole size amount t m r big w few =
      let ids = map id_of (datagrams_among size amount r.packet_buffer.mmsghdr_vec) in
      let (ms, e) =
        process_msghdrs-AllWhole size big r.parameter.socket_options.gro r.packet_buffer.mmsghdr_vec
          amount r.next_packet_id 0 m.statistic w (omega arith) in
      (
        ms,
        get_total_bytes r.packet_buffer.mmsghdr_vec amount,
        rw e (
            ap
              (λ n.
                ok
                  (record (count_received t m n (get_total_bytes r.packet_buffer.mmsghdr_vec amount)
                    (receive_numbers ids r.next_packet_id m.statistic).1 r) {
                      next_packet_id = (receive_numbers ids r.next_packet_id m.statistic).0;
                      packet_buffer = record r.packet_buffer { mmsghdr_vec = ms };
                    }))
              (omega arith)),
      )
