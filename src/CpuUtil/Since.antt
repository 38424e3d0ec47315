-- ===== src/CpuUtil/Since.antt =====
-- The readings from which the methods of src/util/cpu_util.rs measure, after any calls.
use nperf.Base.{
  ℕ, ◌≡◌, refl, ap, ap₂, sym, subst, ◌∙◌, Bool, false, ◌&&◌, ◌==◌, List, [], ◌∷◌, if◌then◌else◌,
  Bool-cases, inl, inr, arith,
}
use nperf.Config.Floats.{Floats}
use nperf.CpuUtil.{
  Reading, CpuUtil, new, update, shares, get_relative_cpu_util, get_absolut_cpu_util, UtilCall,
  relative, absolut, apply_call, apply_calls,
}

-- The process has used no whole second yet, of neither kind.
abbrev pub is_idle : Reading → Bool
is_idle r = r.usage.user_sec == 0 && r.usage.system_sec == 0

abbrev pub reading : UtilCall → Reading
reading (relative r) = r
reading (absolut r) = r

-- The reading of the latest call.
abbrev pub latest : Reading → List UtilCall → Reading
latest r [] = r
latest r (c ∷ cs) = latest (reading c) cs

-- The reading of the first call with a whole second, or else of the latest call.
abbrev pub first_busy : Reading → List UtilCall → Reading
first_busy r [] = r
first_busy r (c ∷ cs) = if is_idle r then first_busy (reading c) cs else r

-- The same, kept along the calls.
abbrev first_busy_from : Reading → List UtilCall → Reading
first_busy_from r [] = r
first_busy_from r (c ∷ cs) = first_busy_from (if is_idle r then reading c else r) cs

busy_stays : (r : Reading) (cs : List UtilCall) → is_idle r ≡ false → first_busy_from r cs ≡ r
busy_stays r [] e = refl
busy_stays r (c ∷ cs) e = rw e (busy_stays r cs e)

first_busy-from : (r : Reading) (cs : List UtilCall) → first_busy_from r cs ≡ first_busy r cs
first_busy-from r [] = refl
first_busy-from r (c ∷ cs) = elim (Bool-cases (is_idle r)) [
  | inl q ↦ rw q (first_busy-from (reading c) cs)
  | inr q ↦ rw q (busy_stays r cs q)
]

-- What the two methods measure from.
pub record Measures (last first : Reading) (u : CpuUtil) : Type 0 where
  pub last_instant : u.last_instant ≡ last.instant
  pub last_usage : u.last_usage ≡ last.usage
  pub first_instant : u.first_instant ≡ first.instant
  pub first_usage : u.first_usage ≡ first.usage

update-Measures :
    {last first : Reading} {u : CpuUtil} (r : Reading)
    → Measures last first u
    → Measures r (if is_idle first then r else first) (update r u)
unfolding update
update-Measures r m = ground arith

-- At the start no call has been made, and the first one is taken over.
new-Measures : (r0 : Reading) (instant : ℕ) (r : Reading) → Measures r r (update r (new r0 instant))
unfolding update new
new-Measures r0 instant r = ground arith

module _ (fl : Floats) where
  call-update : (c : UtilCall) (u : CpuUtil) → (apply_call fl c u).1 ≡ update (reading c) u
  unfolding apply_call
  call-update (relative r) u = refl
  call-update (absolut r) u = refl

  calls-Measures :
      (last first : Reading) (u : CpuUtil) (cs : List UtilCall)
      → Measures last first u
      → Measures (latest last cs) (first_busy_from first cs) (apply_calls fl cs u)
  unfolding apply_calls
  calls-Measures last first u [] m = m
  calls-Measures last first u (c ∷ cs) m = rw (call-update c u) (
      calls-Measures (reading c) (if is_idle first then reading c else first) (update (reading c) u)
        cs (update-Measures (reading c) m))

  -- From the first call on, and whichever of the two methods the calls are: `get_relative_cpu_util`
  -- gives the shares since the latest call, and `get_absolut_cpu_util` those since the first call that read at
  -- least one whole second of user or of system time, or since the latest call where none did. So
  -- the latter is not the share since the start.
  pub get_cpu_util-base :
      (r0 : Reading) (instant : ℕ) (c : UtilCall) (cs : List UtilCall) (r : Reading)
      → let u = apply_calls fl (c ∷ cs) (new r0 instant) in
        let last = latest (reading c) cs in
        let first = first_busy (reading c) cs in
        ((get_relative_cpu_util fl r u).0 ≡ shares fl last.usage last.instant r)
        × ((get_absolut_cpu_util fl r u).0 ≡ shares fl first.usage first.instant r)
  unfolding get_relative_cpu_util get_absolut_cpu_util apply_calls
  get_cpu_util-base r0 instant c cs r =
      let m =
        subst
          (λ u.
            Measures (latest (reading c) cs) (first_busy_from (reading c) cs) (apply_calls fl cs u))
          (sym (call-update c (new r0 instant)))
          (calls-Measures (reading c) (reading c) (update (reading c) (new r0 instant)) cs
            (new-Measures r0 instant (reading c))) in
      (
        ap₂ (λ b i. shares fl b i r) m.last_usage m.last_instant,
        ap₂ (λ b i. shares fl b i r) m.first_usage m.first_instant
            ∙ ap (λ (x : Reading). shares fl x.usage x.instant r) (first_busy-from (reading c) cs),
      )
