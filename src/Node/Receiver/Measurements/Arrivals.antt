-- ===== src/Node/Receiver/Measurements/Arrivals.antt =====
-- What the arrival of a message does to the measurements of src/node/receiver.rs.
use nperf.Base.{
  ℕ, zero, suc, ◌+◌, ◌-◌, ◌≤◌, ◌<◌, ◌≡◌, ◌≢◌, ◌↔◌, refl, sym, ap, leb, Bool-cases, inl, inr, ◌∙◌,
  subst, true, List, [], ◌∷◌, ◌++◌, arith, length, get_elem?, set, replicate, get_elem?-some,
  get_elem?-none, length-set, length-append, length-replicate, Outcome, ok, err, test_id_too_big,
  init_message_received, last_message_received, none, some, leb→le, lt→leb, fault, panicked, max,
  get_elem?-set_self, get_elem?-set_ne,
}
use native.Mathlib.Decide.{dec_lt}
use nperf.Config.{Parameter, max_test_id}
use nperf.Config.Floats.{F64, Floats}
use nperf.Net.Header.{MessageType, init, measurement, last}
use nperf.Statistic.{Measurement, new_measurement}
use nperf.Node.Receiver.Measurements.{
  parse_message_type, resize, first_packet, last_packet, all_measurements_finished,
}

module _ (t : ℕ) (p : Parameter) (now : F64) (ms : List Measurement) where
  length-resize : length (resize t p now ms) ≡ max (length ms) (t + 1)
  unfolding resize
  length-resize = ground (
    arith,
    length-append ms (replicate (t + 1 - length ms) (new_measurement p now)),
    length-replicate (t + 1 - length ms) (new_measurement p now),
    leb→le (length ms) t,
    lt→leb (length ms) t,
  )

get_elem?-append :
    {A : Type 0} (xs ys : List A) (j : ℕ) → j < length xs → get_elem? (xs ++ ys) j ≡ get_elem? xs j
get_elem?-append [] ys j h = absurd (omega arith)
get_elem?-append (x ∷ xs) ys zero h = refl
get_elem?-append (x ∷ xs) ys (suc j) h = get_elem?-append xs ys j (omega arith)

get_elem?-resize :
    (t : ℕ) (p : Parameter) (now : F64) (ms : List Measurement) (j : ℕ)
    → j < length ms
    → get_elem? (resize t p now ms) j ≡ get_elem? ms j
unfolding resize
get_elem?-resize t p now ms j h =
    ground (arith, get_elem?-append ms (replicate (t + 1 - length ms) (new_measurement p now)) j h)

resize_known :
    (t : ℕ) (p : Parameter) (now : F64) (ms : List Measurement) (m : Measurement)
    → get_elem? ms t ≡ some m
    → resize t p now ms ≡ ms
unfolding resize
resize_known t p now ms m e = elim (Bool-cases (leb (length ms) t)) [
  | inl q ↦ cc (get_elem?-none ms t (leb→le (length ms) t q))
  | inr q ↦ rw (q, resize) refl
]

first_packet-started :
    (now : F64) (m : Measurement) → (first_packet now m).first_packet_received ≡ true
unfolding first_packet
first_packet-started now m = ground arith

-- The places below the old length but `t` are as before.
abbrev Keeps : ℕ → List Measurement → List Measurement → Type 0
Keeps t ms ms' = (j : ℕ) → j < length ms → t ≢ j → get_elem? ms' j ≡ get_elem? ms j

-- What a message of test `t` may do to the measurements `ms`.
pub data Arrives (t : ℕ) (ms : List Measurement)
    : MessageType → Outcome (Unit {0}) → List Measurement → Type 0 where
  rejected : (mtype : MessageType) → max_test_id ≤ t → Arrives t ms mtype (err test_id_too_big) ms
  announced :
      (ms' : List Measurement)
      → length ms' ≡ max (length ms) (t + 1)
      → ((j : ℕ) → j < length ms → get_elem? ms' j ≡ get_elem? ms j)
      → Arrives t ms init (err init_message_received) ms'
  counted :
      (ms' : List Measurement) (m : Measurement)
      → length ms' ≡ max (length ms) (t + 1)
      → get_elem? ms' t ≡ some m
      → m.first_packet_received ≡ true
      → Keeps t ms ms'
      → Arrives t ms measurement (ok tt) ms'
  ended :
      (ms' : List Measurement) (m : Measurement)
      → length ms' ≡ length ms
      → get_elem? ms' t ≡ some m
      → m.last_packet_received ≡ true
      → Keeps t ms ms'
      → Arrives t ms last (err last_message_received) ms'
  unknown : t < max_test_id → length ms ≤ t → Arrives t ms last (fault panicked) ms

module _ (fl : Floats) (t : ℕ) (now : F64) (p : Parameter) (ms : List Measurement) where
  parse_rejected :
      (mtype : MessageType)
      → max_test_id ≤ t
      → parse_message_type fl mtype t now p ms ≡ (err test_id_too_big, ms)
  unfolding parse_message_type
  parse_rejected mtype h = ground arith

  parse_init :
      t < max_test_id
      → parse_message_type fl init t now p ms ≡ (err init_message_received, resize t p now ms)
  unfolding parse_message_type
  parse_init h = ground arith

  parse_measurement :
      (m : Measurement)
      → t < max_test_id
      → get_elem? (resize t p now ms) t ≡ some m
      → parse_message_type fl measurement t now p ms
        ≡ (ok tt, set (resize t p now ms) t (first_packet now m))
  unfolding parse_message_type
  parse_measurement m h e = ground arith

  -- There is room for a test that is known.
  pub parse_known :
      (m : Measurement)
      → t < max_test_id
      → get_elem? ms t ≡ some m
      → parse_message_type fl measurement t now p ms ≡ (ok tt, set ms t (first_packet now m))
  parse_known m h e =
      let same = resize_known t p now ms m e in
      parse_measurement m h (rw same e) ∙ ap (λ xs. (ok tt, set xs t (first_packet now m))) same

  parse_last :
      (m : Measurement)
      → t < max_test_id
      → get_elem? ms t ≡ some m
      → parse_message_type fl last t now p ms
        ≡ (err last_message_received, set ms t (last_packet fl now m))
  unfolding parse_message_type
  parse_last m h e = ground arith

  parse_unknown :
      t < max_test_id
      → get_elem? ms t ≡ none
      → parse_message_type fl last t now p ms ≡ (fault panicked, ms)
  unfolding parse_message_type
  parse_unknown h e = ground arith

  last_packet-ended : (m : Measurement) → (last_packet fl now m).last_packet_received ≡ true
  unfolding last_packet
  last_packet-ended m = refl

  abbrev ArrivesAs : MessageType → Outcome (Unit {0}) × List Measurement → Type 0
  ArrivesAs mtype r = Arrives t ms mtype r.0 r.1

  small :
      t < max_test_id
      → (mtype : MessageType) → ArrivesAs mtype (parse_message_type fl mtype t now p ms)
  small h init =
      subst (ArrivesAs init) (sym (parse_init h))
        (announced _ (length-resize t p now ms) (get_elem?-resize t p now ms))
  small h measurement =
      let (m, e) = get_elem?-some (resize t p now ms) t (omega (arith, length-resize t p now ms)) in
      subst (ArrivesAs measurement) (sym (parse_measurement m h e)) (
        counted _ (first_packet now m)
          (length-set (resize t p now ms) t _ ∙ length-resize t p now ms)
          (get_elem?-set_self (resize t p now ms) t _ (omega (arith, length-resize t p now ms)))
          (first_packet-started now m)
          (λ j b n. get_elem?-set_ne (resize t p now ms) t j _ n ∙ get_elem?-resize t p now ms j b))
  small h last = elim (dec_lt t (length ms)) [
    | yes known ↦
        let (m, e) = get_elem?-some ms t known in
        subst (ArrivesAs last) (sym (parse_last m h e)) (
          ended _ (last_packet fl now m) (length-set ms t _) (get_elem?-set_self ms t _ known)
            (last_packet-ended m) (λ j b n. get_elem?-set_ne ms t j _ n))
    | no new ↦
        subst (ArrivesAs last) (sym (parse_unknown h (get_elem?-none ms t (omega arith))))
          (unknown h (omega arith))
  ]

-- Every message of a test does one of five things to the measurements of the thread: an id that is
-- too big changes nothing; INIT makes room for the test and changes no measurement that was there;
-- a MEASUREMENT makes room and leaves the test's measurement started, and the others as they were;
-- LAST of a known test leaves it finished, and the others as they were; LAST of a test without a
-- measurement is a panic.
pub parse_message_type-Arrives :
    (fl : Floats) (mtype : MessageType) (t : ℕ) (now : F64) (p : Parameter) (ms : List Measurement)
    → let r = parse_message_type fl mtype t now p ms in Arrives t ms mtype r.0 r.1
parse_message_type-Arrives fl mtype t now p ms = elim (dec_lt t max_test_id) [
  | yes h ↦ small fl t now p ms h mtype
  | no h ↦
      subst (ArrivesAs fl t now p ms mtype) (sym (parse_rejected fl t now p ms mtype (omega arith)))
        (rejected mtype (omega arith))
]

-- A measurement whose first message has arrived has also had its last one.
abbrev pub IsFinished : Measurement → Type 0
IsFinished m = m.first_packet_received ≡ true → m.last_packet_received ≡ true

all_measurements_finished-IsFinished :
    (ms : List Measurement)
    → all_measurements_finished ms ≡ true
    → (i : ℕ) (m : Measurement) → get_elem? ms i ≡ some m
    → IsFinished m
unfolding all_measurements_finished
all_measurements_finished-IsFinished [] e i m h = ground arith
all_measurements_finished-IsFinished (x ∷ ms) e zero m h = ground arith
all_measurements_finished-IsFinished (x ∷ ms) e (suc i) m h =
    all_measurements_finished-IsFinished ms (ground arith) i m h

IsFinished-all_measurements_finished :
    (ms : List Measurement)
    → ((i : ℕ) (m : Measurement) → get_elem? ms i ≡ some m → IsFinished m)
    → all_measurements_finished ms ≡ true
unfolding all_measurements_finished
IsFinished-all_measurements_finished [] f = refl
IsFinished-all_measurements_finished (x ∷ ms) f =
    ground (arith, f 0 x refl, IsFinished-all_measurements_finished ms (λ i. f (suc i)))

-- The test of all measurements is true just when each one that was started is finished.
pub all_measurements_finished_iff :
    (ms : List Measurement)
    → (all_measurements_finished ms ≡ true)
      ↔ ((i : ℕ) (m : Measurement) → get_elem? ms i ≡ some m → IsFinished m)
all_measurements_finished_iff ms =
    (all_measurements_finished-IsFinished ms, IsFinished-all_measurements_finished ms)
