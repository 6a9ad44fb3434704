-- ===== src/Daemon/Health/Faults.antt =====
-- src/scryntic/daemon/health.py: the list of faults.
use scryntic.Prelude.{
  ℕ, zero, suc, ◌+◌, ◌≤◌, ◌≡◌, Bool, true, false, List, [], ◌∷◌, ◌++◌, arith, any, length,
  if◌then◌else◌, ◌==◌, refl, ltb,
}
use scryntic.Daemon.Health.Snapshot.{
  Fault, none_fault, source, clock, storage, backpressure, normalization, publication, sync, jobs,
  shutdown, stale, fault_code, same_fault, distinct,
}
use scryntic.Daemon.Health.{has_fault, with_fault}

has_fault-append :
    (f : Fault) (xs ys : List Fault) → has_fault f xs ≡ true → has_fault f (xs ++ ys) ≡ true
unfolding has_fault
has_fault-append f [] ys h = ground arith
has_fault-append f (x ∷ xs) ys h = ground (arith, has_fault-append f xs ys)

has_fault-append_last : (f : Fault) (xs : List Fault) → has_fault f (xs ++ f ∷ []) ≡ true
unfolding has_fault
has_fault-append_last f [] = ground arith
has_fault-append_last f (x ∷ xs) = ground (arith, has_fault-append_last f xs)

pub with_fault-keeps :
    (present : Bool) (g f : Fault) (xs : List Fault)
    → has_fault f xs ≡ true
    → has_fault f (with_fault present g xs) ≡ true
unfolding with_fault
with_fault-keeps present g f xs h = ground (arith, has_fault-append f xs (g ∷ []) h)

pub with_fault-adds :
    (present : Bool) (f : Fault) (xs : List Fault)
    → present ≡ true
    → has_fault f (with_fault present f xs) ≡ true
unfolding with_fault
with_fault-adds present f xs h = ground (arith, has_fault-append_last f xs)

any-append_last :
    (g f : Fault) (xs : List Fault)
    → any (same_fault g) xs ≡ false
    → same_fault g f ≡ false
    → any (same_fault g) (xs ++ f ∷ []) ≡ false
any-append_last g f [] h k = ground arith
any-append_last g f (x ∷ xs) h k = ground (arith, any-append_last g f xs)

distinct-append_last :
    (f : Fault) (xs : List Fault)
    → distinct same_fault xs ≡ true
    → any (same_fault f) xs ≡ false
    → distinct same_fault (xs ++ f ∷ []) ≡ true
unfolding distinct
distinct-append_last f [] h k = ground arith
distinct-append_last f (x ∷ xs) h k =
    ground (arith, distinct-append_last f xs, any-append_last x f xs)

pub distinct-with_fault :
    (present : Bool) (f : Fault) (xs : List Fault)
    → distinct same_fault xs ≡ true
    → distinct same_fault (with_fault present f xs) ≡ true
unfolding with_fault has_fault
distinct-with_fault present f xs h = ground (arith, distinct-append_last f xs h)

count : ℕ → List Fault → ℕ
count c [] = 0
count c (x ∷ xs) = (if c == fault_code x then 1 else 0) + count c xs

count-absent :
    (x : Fault) (xs : List Fault) → any (same_fault x) xs ≡ false → count (fault_code x) xs ≡ 0
unfolding count
count-absent x [] h = ground arith
count-absent x (y ∷ ys) h = ground (arith, count-absent x ys)

count-distinct : (c : ℕ) (xs : List Fault) → distinct same_fault xs ≡ true → count c xs ≤ 1
unfolding count distinct
count-distinct c [] h = ground arith
count-distinct c (x ∷ xs) h = ground (arith, count-distinct c xs, count-absent x xs)

-- the sum of the counts of the codes below `n`
counts : ℕ → List Fault → ℕ
counts zero xs = 0
counts (suc n) xs = count n xs + counts n xs

counts-distinct : (n : ℕ) (xs : List Fault) → distinct same_fault xs ≡ true → counts n xs ≤ n
unfolding counts
counts-distinct zero xs h = omega arith
counts-distinct (suc n) xs h = omega (arith, counts-distinct n xs h, count-distinct n xs h)

counts-nil : (n : ℕ) → counts n [] ≡ 0
unfolding counts count
counts-nil zero = refl
counts-nil (suc n) = omega (arith, counts-nil n)

counts-cons :
    (n : ℕ) (x : Fault) (xs : List Fault)
    → counts n (x ∷ xs) ≡ (if ltb (fault_code x) n then 1 else 0) + counts n xs
unfolding counts count
counts-cons zero x xs = ground arith
counts-cons (suc n) x xs = ground (arith, counts-cons n x xs)

fault_code-lt : (x : Fault) → ltb (fault_code x) 11 ≡ true
unfolding fault_code
fault_code-lt none_fault = refl
fault_code-lt source = refl
fault_code-lt clock = refl
fault_code-lt storage = refl
fault_code-lt backpressure = refl
fault_code-lt normalization = refl
fault_code-lt publication = refl
fault_code-lt sync = refl
fault_code-lt jobs = refl
fault_code-lt shutdown = refl
fault_code-lt stale = refl

length-counts : (xs : List Fault) → length xs ≡ counts 11 xs
length-counts [] = omega (arith, counts-nil 11)
length-counts (x ∷ xs) = ground (arith, counts-cons 11 x xs, fault_code-lt x, length-counts xs)

-- there are eleven faults
pub length-distinct : (xs : List Fault) → distinct same_fault xs ≡ true → length xs ≤ 11
length-distinct xs h = omega (arith, length-counts xs, counts-distinct 11 xs h)
