-- ===== src/Node/Sender/Requests.antt =====
-- What the completions of a pass are counted as: `io_uring_complete_send` and `io_uring_complete_send_zc`
-- of src/node/sender.rs.
use nperf.Base.{
  ℕ, zero, suc, subst, ◌+◌, ◌*◌, ◌^◌, ◌<◌, ◌≡◌, refl, ◌⊎◌, inl, inr, Bool, true, false, ◌==◌, List,
  [], ◌∷◌, ◌++◌, add64, arith, if◌then◌else◌, Bool-cases, ℤ, pos, negsuc, Outcome, ok, err, fault,
  Error, eagain,
}
use nperf.Statistic.{Statistic}
use nperf.Node.Receiver.Completion.{Cqe}
use nperf.Node.Sender.{count_sent, omit, complete_send, complete_send_zc, is_second}

-- The first event of a request: sent, or dropped by EAGAIN. In the zero-copy mode the second event has no
-- bytes or is a flag.
abbrev pub is_first : Bool → ℤ → Bool
is_first false (pos n) = true
is_first true (pos zero) = false
is_first true (pos (suc n)) = true
is_first zc (negsuc n) = n == 10

abbrev pub firsts : Bool → List Cqe → ℕ
firsts zc [] = 0
firsts zc (c ∷ cs) = if is_first zc c.result then 1 + firsts zc cs else firsts zc cs

-- The datagrams that are counted, as sent or as omitted.
abbrev pub tally : Statistic → ℕ
tally t = t.amount_datagrams + t.amount_omitted_datagrams

ℤ-cases : (z : ℤ) → ((n : ℕ) × (z ≡ pos n)) ⊎ ((n : ℕ) × (z ≡ negsuc n))
ℤ-cases (pos n) = inl (n, refl)
ℤ-cases (negsuc n) = inr (n, refl)

mul-suc : (n a : ℕ) → (1 + n) * a ≡ a + n * a
mul-suc n a = grind arith

-- The error that the loop goes on after.
abbrev pub IsFatal : Error → Type 0
IsFatal eagain = ⊥
IsFatal _ = Unit {0}

-- Completions that are a success have counted so many; an error of them ends the loop, and none panics.
abbrev pub Tallies {ℓ} : {A : Type ℓ} → ℕ → Outcome A × Statistic → Type 0
Tallies n (ok a, t) = tally t ≡ n
Tallies n (err e, t) = IsFatal e
Tallies n (fault x, t) = ⊥

pub Tallies-ok {ℓ} :
    {A : Type ℓ} (n : ℕ) (d : Outcome A × Statistic) (a : A)
    → Tallies n d
    → d.0 ≡ ok a
    → tally d.1 ≡ n
Tallies-ok n (ok b, t) a h e = h
Tallies-ok n (err x, t) a h e = cc
Tallies-ok n (fault x, t) a h e = cc

pub Tallies-err {ℓ} :
    {A : Type ℓ} (n : ℕ) (d : Outcome A × Statistic) (x : Error)
    → Tallies n d
    → d.0 ≡ err x
    → IsFatal x
Tallies-err n (ok b, t) x h e = cc
Tallies-err n (err y, t) x h e = (let q : y ≡ x = cc in subst IsFatal q h)
Tallies-err n (fault y, t) x h e = cc

sent_one :
    (amount bytes k n : ℕ) (t : Statistic)
    → tally t + (1 + k) * amount ≡ n
    → n < 2 ^ 64
    → tally (count_sent amount bytes t) + k * amount ≡ n
sent_one amount bytes k n t h l = omega (arith, mul-suc k amount)

omitted_one :
    (amount k n : ℕ) (t : Statistic)
    → tally t + (1 + k) * amount ≡ n
    → n < 2 ^ 64
    → tally (omit amount t) + k * amount ≡ n
omitted_one amount k n t h l = omega (arith, mul-suc k amount)

pub complete_send-Tallies :
    (amount n : ℕ) (cs : List Cqe) (count : ℕ) (t : Statistic)
    → tally t + firsts false cs * amount ≡ n
    → n < 2 ^ 64
    → Tallies n (complete_send amount cs count t)
unfolding complete_send
complete_send-Tallies amount n [] count t h l = omega arith
complete_send-Tallies amount n (c ∷ cs) count t h l = elim (ℤ-cases c.result) [
  | inl (m, q) ↦
      rw (q, complete_send)
        (complete_send-Tallies amount n cs (count + 1) (count_sent amount m t)
          (sent_one amount m (firsts false cs) n t (rw q at h) l) l)
  | inr (m, q) ↦ elim (Bool-cases (m == 10)) [
    | inl a ↦
        rw (q, a, complete_send)
          (complete_send-Tallies amount n cs count (omit amount t)
            (omitted_one amount (firsts false cs) n t (rw a at (rw q at h)) l) l)
    | inr a ↦ elim (Bool-cases (m == 110)) [
      | inl b ↦ rw (q, a, b, complete_send) tt
      | inr b ↦ rw (q, a, b, complete_send) tt
    ]
  ]
]

module _ (more notif : ℕ → Bool) where
  pub complete_send_zc-Tallies :
      (amount n : ℕ) (cs : List Cqe) (count : ℕ) (pool : List ℕ) (t : Statistic)
      → tally t + firsts true cs * amount ≡ n
      → n < 2 ^ 64
      → Tallies n (complete_send_zc more notif amount cs count pool t)
  unfolding complete_send_zc
  complete_send_zc-Tallies amount n [] count pool t h l = omega arith
  complete_send_zc-Tallies amount n (c ∷ cs) count pool t h l = elim (ℤ-cases c.result) [
    | inl (zero, q) ↦ elim (Bool-cases (is_second more notif c)) [
      | inl z ↦
          rw (q, z, complete_send_zc)
            (complete_send_zc-Tallies amount n cs (count + 1) (pool ++ (c.user_data ∷ [])) t
              (rw q at h) l)
      | inr z ↦
          rw (q, z, complete_send_zc)
            (complete_send_zc-Tallies amount n cs count pool t (rw q at h) l)
    ]
    | inl (suc m, q) ↦
        rw (q, complete_send_zc)
          (complete_send_zc-Tallies amount n cs count pool (count_sent amount (suc m) t)
            (sent_one amount (suc m) (firsts true cs) n t (rw q at h) l) l)
    | inr (m, q) ↦ elim (Bool-cases (m == 10)) [
      | inl a ↦
          rw (q, a, complete_send_zc)
            (complete_send_zc-Tallies amount n cs count (pool ++ (c.user_data ∷ [])) (omit amount t)
              (omitted_one amount (firsts true cs) n t (rw a at (rw q at h)) l) l)
      | inr a ↦ elim (Bool-cases (m == 110)) [
        | inl b ↦ rw (q, a, b, complete_send_zc) tt
        | inr b ↦ elim (Bool-cases (m == 2147483647)) [
          | inr d ↦ rw (q, a, b, d, complete_send_zc) tt
          | inl d ↦ elim (Bool-cases (is_second more notif c)) [
            | inl z ↦
                rw (q, a, b, d, z, complete_send_zc)
                  (complete_send_zc-Tallies amount n cs (count + 1) (pool ++ (c.user_data ∷ []))
                    (record t { uring_copied_zc = add64 t.uring_copied_zc 1 }) (rw a at (rw q at h))
                    l)
            | inr z ↦
                rw (q, a, b, d, z, complete_send_zc)
                  (complete_send_zc-Tallies amount n cs count pool t (rw a at (rw q at h)) l)
          ]
        ]
      ]
    ]
  ]
