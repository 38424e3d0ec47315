-- ===== src/Buffer/PacketBuffer/Pool.antt =====
-- The pool of buffer indices: every index is free or in flight, and never both.
use mathlib.Core.List.{
  reverse, reverse_perm, append_assoc, perm_append_comm, append-nil, Perm, perm_middle,
}
use mathlib.Core.List.Perm
use mathlib.Core.List.{Mem, mem-cons, mem-cons_self, not-mem-nil}
use mathlib.Core.Logic.Or
use native.Mathlib.Bridge.{le_prop}
use nperf.Base.{
  ℕ, zero, suc, ◌+◌, ◌^◌, ◌≤◌, ◌<◌, ◌≡◌, refl, ap, subst, ◌∙◌, ◌⊎◌, inl, inr, List, [], ◌∷◌, ◌++◌,
  arith, length, length-append, length-perm, length-reverse, length-range_from, range_from, ok, err,
  no_buffers_left, le→leb, if◌then◌else◌, length-map,
}
use nperf.Buffer.MsghdrVec.{MsghdrVec}
use nperf.Buffer.PacketBuffer.{
  PacketBuffer, new, get_buffer_index, get_pool_inflight, return_buffer_index,
}

-- With the indices `flying` in flight: those and the pool are the indices of all buffers.
pub record IsPool (n : ℕ) (flying : List ℕ) (b : PacketBuffer) : Type 0 where
  pub all : Perm (b.index_pool ++ flying) (range_from 0 n)
  pub capacity : b.pool_capacity ≡ n
  pub buffers : length b.mmsghdr_vec ≡ n
  pub small : n < 2 ^ 63

module _ (n : ℕ) (flying : List ℕ) (b : PacketBuffer) (p : IsPool n flying b) where
  pub count-IsPool : length b.index_pool + length flying ≡ n
  count-IsPool =
      omega (arith, length-append b.index_pool flying, length-perm p.all, length-range_from 0 n)

  -- In a pool whose buffers are all either free or in flight, what `get_pool_inflight` reports is
  -- the number of those in flight.
  pub get_pool_inflight-IsPool : get_pool_inflight b ≡ length flying
  unfolding get_pool_inflight
  get_pool_inflight-IsPool = omega (arith, count-IsPool, p.capacity, p.small)

pub new-IsPool :
    (v : MsghdrVec) → length v.msghdr_vec < 2 ^ 63 → IsPool (length v.msghdr_vec) [] (new v)
unfolding new
new-IsPool v s = record {
  all = rw append-nil (reverse_perm (range_from 0 (length v.msghdr_vec)));
  capacity = refl;
  buffers = length-map _ v.msghdr_vec;
  small = s;
}

-- In a pool whose n buffers are all either free or in flight, taking an index fails just when all are
-- in flight, without a change, and else moves one free index to those in flight and changes nothing
-- else.
pub get_buffer_index-IsPool :
    (n : ℕ) (flying : List ℕ) (b : PacketBuffer)
    → IsPool n flying b
    → ((length flying ≡ n) × (get_buffer_index b ≡ (err no_buffers_left, b)))
      ⊎ ((i : ℕ) × (c : PacketBuffer) × (get_buffer_index b ≡ (ok i, c))
          × IsPool n (i ∷ flying) c
          × (b.index_pool ≡ i ∷ c.index_pool)
          × (c ≡ record b { index_pool = c.index_pool }))
unfolding get_buffer_index
get_buffer_index-IsPool n flying b p = go b.index_pool refl
  where
    go :
        (pool : List ℕ)
        → b.index_pool ≡ pool
        → ((length flying ≡ n) × (get_buffer_index b ≡ (err no_buffers_left, b)))
          ⊎ ((i : ℕ) × (c : PacketBuffer) × (get_buffer_index b ≡ (ok i, c))
              × IsPool n (i ∷ flying) c
              × (b.index_pool ≡ i ∷ c.index_pool)
              × (c ≡ record b { index_pool = c.index_pool }))
    go [] e =
        inl (omega (arith, ap length e, count-IsPool n flying b p), simp (e, get_buffer_index))
    go (i ∷ rest) e = inr (
      i,
      record b { index_pool = rest },
      rw (e, get_buffer_index),
      record {
        all =
            Perm.trans (perm_middle rest flying)
              (subst (λ x. Perm (x ++ flying) (range_from 0 n)) e p.all);
        capacity = p.capacity;
        buffers = p.buffers;
        small = p.small;
      },
      e,
      refl,
    )

-- Returning indices that are in flight makes them free again: the n buffers are all either free or
-- among the others in flight, and the vector of the pool keeps its capacity.
pub return_buffer_index-IsPool :
    (grow : ℕ → ℕ → ℕ) (n : ℕ) (back flying : List ℕ) (b : PacketBuffer)
    → IsPool n (back ++ flying) b
    → IsPool n flying (return_buffer_index grow back b)
unfolding return_buffer_index
return_buffer_index-IsPool grow n back flying b p =
    let fits : length (reverse back ++ b.index_pool) ≤ b.pool_capacity = omega (
      arith,
      length-append (reverse back) b.index_pool,
      length-reverse back,
      length-append back flying,
      count-IsPool n (back ++ flying) b p,
      p.capacity,
    ) in
    record {
      all = Perm.trans (Perm.append_right flying (perm_append_comm (reverse back) b.index_pool)) (
          rw append_assoc (
            Perm.trans
              (Perm.append_left b.index_pool (Perm.append_right flying (reverse_perm back)))
              p.all));
      capacity =
          ap
            (λ x.
              if x
              then b.pool_capacity
              else grow b.pool_capacity (length (reverse back ++ b.index_pool)))
            (le→leb (length (reverse back ++ b.index_pool)) b.pool_capacity fits)
          ∙ p.capacity;
      buffers = p.buffers;
      small = p.small;
    }

mem-range_from : (i k n : ℕ) → Mem i (range_from k n) → i < k + n
mem-range_from i k zero m = absurd (not-mem-nil m)
mem-range_from i k (suc n) m =
    Or.elim le_prop (mem-cons.0 m) (λ e. rw e (omega arith))
      (λ r. omega (arith, mem-range_from i (suc k) n r))

-- An index of the pool is the index of a buffer.
pub free-lt :
    (n i : ℕ) (rest flying : List ℕ) (b : PacketBuffer)
    → IsPool n flying b
    → b.index_pool ≡ i ∷ rest
    → i < n
free-lt n i rest flying b p e =
    omega (arith, mem-range_from i 0 n ((Perm.mem_iff p.all).0 (rw e mem-cons_self)))
