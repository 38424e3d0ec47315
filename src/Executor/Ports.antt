-- ===== src/Executor/Ports.antt =====
-- The ports and test ids of the threads of src/executor.rs.
use nperf.Base.{
  ℕ, zero, suc, ◌+◌, ◌<◌, ◌^◌, ◌≡◌, ◌≢◌, refl, ap, sym, ◌∙◌, true, false, List, [], ◌∷◌, map,
  Option, some, arith, get_elem?, range_from, length, length-map, length-range_from, add16,
}
use nperf.Config.{Parameter, is_individual, is_single}
use nperf.Arguments.{NPerf}
use nperf.Net.Socket.{Socket}
use nperf.Executor.{Spawned, spawned, spawn_threads, receiver_port_of, test_id_of}

get_elem?-map :
    {A B : Type 0} (f : A → B) (xs : List A) (i : ℕ) (y : B)
    → get_elem? (map f xs) i ≡ some y
    → (x : A) × (get_elem? xs i ≡ some x) × (y ≡ f x)
get_elem?-map f [] i y e = cc
get_elem?-map f (x ∷ xs) zero y e = (x, refl, cc)
get_elem?-map f (x ∷ xs) (suc i) y e = get_elem?-map f xs i y e

get_elem?-range_from : (k n i x : ℕ) → get_elem? (range_from k n) i ≡ some x → (x ≡ k + i) × (i < n)
get_elem?-range_from k zero i x e = cc
get_elem?-range_from k (suc n) zero x e = (let q : k ≡ x = cc in omega arith, omega arith)
get_elem?-range_from k (suc n) (suc i) x e =
    let (q, l) = get_elem?-range_from (suc k) n i x e in (omega arith, omega arith)

apart : (p i j : ℕ) → i < 2 ^ 16 → j < 2 ^ 16 → add16 p i ≡ add16 p j → i ≡ j
apart p i j l m h = omega arith

module _ (a : NPerf) (p : Parameter) (socket : Option Socket) (fd : Option ℕ) where
  pub length-spawn_threads : length (spawn_threads a p socket fd) ≡ p.amount_threads
  unfolding spawn_threads
  length-spawn_threads =
      length-map (spawned a p socket fd) (range_from 0 p.amount_threads)
      ∙ length-range_from 0 p.amount_threads

  spawned-at :
      (i : ℕ) (t : Spawned)
      → get_elem? (spawn_threads a p socket fd) i ≡ some t
      → (t ≡ spawned a p socket fd i) × (i < p.amount_threads)
  unfolding spawn_threads
  spawned-at i t e =
      let (x, q, f) = get_elem?-map (spawned a p socket fd) (range_from 0 p.amount_threads) i t e in
      let (r, l) = get_elem?-range_from 0 p.amount_threads i x q in
      (f ∙ ap (spawned a p socket fd) (omega arith), l)

  spawned-port :
      (i : ℕ)
      → is_individual p.multiplex_port_receiver ≡ true
      → (spawned a p socket fd i).receiver_port ≡ add16 a.port i
  unfolding spawned receiver_port_of
  spawned-port i own = rw own refl

  spawned-test_id :
      (i : ℕ) → is_single p.simulate_connection ≡ false → (spawned a p socket fd i).test_id ≡ i
  unfolding spawned test_id_of
  spawned-test_id i many = rw many refl

  -- Where each thread has a port of its own, no two of fewer than 2^16 threads of a run have the same port of the
  -- receiver, whatever the settings of the test ids; that the ports may wrap around is no harm.
  pub spawn_threads-receiver_port :
      (i j : ℕ) (t u : Spawned)
      → i ≢ j
      → get_elem? (spawn_threads a p socket fd) i ≡ some t
      → get_elem? (spawn_threads a p socket fd) j ≡ some u
      → is_individual p.multiplex_port_receiver ≡ true
      → p.amount_threads < 2 ^ 16
      → t.receiver_port ≢ u.receiver_port
  spawn_threads-receiver_port i j t u ne e f own few =
      let (q, l) = spawned-at i t e in
      let (r, m) = spawned-at j u f in
      let ti = ap (λ x. x.receiver_port) q ∙ spawned-port i own in
      let uj = ap (λ x. x.receiver_port) r ∙ spawned-port j own in
      λ h. ne (apart a.port i j (omega arith) (omega arith) (sym ti ∙ h ∙ uj))

  -- Where more than one connection is simulated, no two threads of a run have the same test id, whatever the settings
  -- of the ports, and each id is less than the number of the threads.
  pub spawn_threads-test_id :
      (i j : ℕ) (t u : Spawned)
      → i ≢ j
      → get_elem? (spawn_threads a p socket fd) i ≡ some t
      → get_elem? (spawn_threads a p socket fd) j ≡ some u
      → is_single p.simulate_connection ≡ false
      → (t.test_id ≢ u.test_id) × (t.test_id < p.amount_threads)
  spawn_threads-test_id i j t u ne e f many =
      let (q, l) = spawned-at i t e in
      let (r, m) = spawned-at j u f in
      let ti = ap (λ x. x.test_id) q ∙ spawned-test_id i many in
      let uj = ap (λ x. x.test_id) r ∙ spawned-test_id j many in
      (λ h. ne (sym ti ∙ h ∙ uj), omega (arith, ti, l))
