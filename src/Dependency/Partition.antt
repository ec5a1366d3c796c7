-- ===== src/Dependency/Partition.antt =====
-- Where the partitioners of dpark/dependency.py send a key.
use dpark.Common.{
  ℤ, pos, negsuc, int_mod, int_ltb, ◌+◌, ◌*◌, ◌/◌, ℕ, ◌-◌, ◌≤◌, ◌<◌, ◌≡◌, refl, Bool, true, false,
  Option, none, some, List, length, get_elem?-some, leb, ◌==◌, if◌then◌else◌, ok, arith, Bool-cases,
  inl, inr, max, ok-injective,
}
use mathlib.Core.Path.{subst}
use native.Mathlib.Nat.{mod-lt, div-add-mod}
use dpark.Dependency.{
  HashPartitioner, hash_partitioner, hash_partition, RangePartitioner, range_partitioner,
  num_partitions, range_partition, sort_keys,
}
use dpark.Dependency.Bisect.{IsSplit, bisect-IsSplit, bisect_by_total, sort_keys-IsSorted}

-- `i` is below `m`, and the hash is `i` and a multiple of `m`.
abbrev pub IsResidue : ℤ → ℕ → ℕ → Type 0
IsResidue (pos n) m i = (q : ℕ) × (n ≡ q * m + i)
IsResidue (negsuc n) m i = (q : ℕ) × (n + 1 + i ≡ q * m)

int_mod-IsResidue : (h : ℤ) (m : ℕ) → 0 < m → (int_mod h m < m) × IsResidue h m (int_mod h m)
int_mod-IsResidue (pos n) m l = (mod-lt n l, (n / m, omega (arith, div-add-mod n m)))
int_mod-IsResidue (negsuc n) m l =
    (omega (arith, l), (n / m + 1, omega (arith, div-add-mod n m, mod-lt n l)))

-- The key with the hash `h` goes to one of the partitions; without thresholds it is the residue of
-- the hash.
abbrev pub IsPlaced : HashPartitioner → ℤ → Type 0
IsPlaced p h =
    (i : ℕ) × (hash_partition p h ≡ ok i)
    × (i < p.partitions)
    × (p.thresholds ≡ none → IsResidue h p.partitions i)

-- A partitioner that is built sends each key to one of its partitions, whether the hash is negative
-- or not and whatever the thresholds are; without thresholds the hash differs from the number of
-- the partition by a multiple of the number of partitions.
pub hash_partition-lt :
    (n : ℕ) (ts : Option (List ℤ)) (p : HashPartitioner) (h : ℤ)
    → hash_partitioner n ts ≡ ok p
    → IsPlaced p h
unfolding hash_partition hash_partitioner
hash_partition-lt n none p h e =
    let (l, r) = int_mod-IsResidue h (max 1 n) (omega arith) in
    subst (λ q. IsPlaced q h) (ok-injective e) (int_mod h (max 1 n), refl, l, λ _. r)
hash_partition-lt n (some ts) p h e = elim (Bool-cases (length ts == max 1 n - 1)) [
  | inl q ↦
      let (i, r, l) = bisect_by_total int_ltb ts h in
      let built : HashPartitioner = record { partitions = max 1 n; thresholds = some ts } in
      let e' : ok built ≡ ok p = ground arith in
      subst (λ z. IsPlaced z h) (ok-injective e') (i, r, ground (arith, l), λ x. cc x)
  | inr q ↦ ground arith
]

IsSplit-le :
    (a : List ℕ) (x y m n : ℕ) → x ≤ y → m ≤ length a → IsSplit a x m → IsSplit a y n → m ≤ n
IsSplit-le a x y m n l b s t = elim (Bool-cases (leb m n)) [
  | inl p ↦ ground arith
  | inr p ↦
      let (e, g) = get_elem?-some a n (ground arith) in ground (arith, (s n e g).0, (t n e g).1)
]

turned :
    (reverse : Bool) (n i j : ℕ)
    → i ≤ j
    → (if reverse
        then (if reverse then n - j else j) ≤ (if reverse then n - i else i)
        else (if reverse then n - i else i) ≤ (if reverse then n - j else j))
turned true n i j l = omega (arith, l)
turned false n i j l = l

-- The two keys go to partitions of the partitioner, in the order of the keys, or in the reverse
-- order.
pub record IsOrdered (p : RangePartitioner) (k k' : ℕ) : Type 0 where
  pub first : ℕ
  pub second : ℕ
  pub first_eq : range_partition p k ≡ ok first
  pub second_eq : range_partition p k' ≡ ok second
  pub first_lt : first < num_partitions p
  pub second_lt : second < num_partitions p
  pub order : (if p.reverse then second ≤ first else first ≤ second)

-- A range partitioner sends a smaller key to the same or an earlier partition, to the same or a
-- later one if it is reversed, and never outside its partitions.
pub range_partition-IsOrdered :
    (ks : List ℕ) (reverse : Bool) (k k' : ℕ)
    → k ≤ k'
    → IsOrdered (range_partitioner ks reverse) k k'
unfolding range_partition
range_partition-IsOrdered ks reverse k k' l =
    let s = sort_keys-IsSorted ks in
    let (i, e, b, t) = bisect-IsSplit (sort_keys ks) k s in
    let (j, f, c, u) = bisect-IsSplit (sort_keys ks) k' s in
    let o = IsSplit-le (sort_keys ks) k k' i j l b t u in
    record {
      first = if reverse then length (sort_keys ks) - i else i;
      second = if reverse then length (sort_keys ks) - j else j;
      first_eq = rw e;
      second_eq = rw f;
      first_lt = ground (arith, b);
      second_lt = ground (arith, c);
      order = turned reverse (length (sort_keys ks)) i j o;
    }
