-- ===== src/Live/Buckets.antt =====
-- The map of buckets of internal/live/registry.go after a write.
use ulsync_server.Prelude.{
  ℕ, ◌+◌, ◌≡◌, refl, ◌≢◌, true, false, none, some, List, [], ◌∷◌, Str, str_eq, str_eq_iff, arith,
  ◌==◌, length, inl, inr, Bool-cases, if◌then◌else◌,
}
use ulsync_server.Live.{
  Buckets, bucket, put_bucket, delete_bucket, delete_waiter, members, contains, count_waiters,
}

pub bucket-put_bucket :
    (u v : Str) (set : List ℕ) (b : Buckets)
    → bucket v (put_bucket u set b) ≡ (if str_eq u v then some set else bucket v b)
unfolding bucket put_bucket
bucket-put_bucket u v set [] = ground arith
bucket-put_bucket u v set ((w, old) ∷ rest) =
    ground (arith, bucket-put_bucket u v set rest, str_eq_iff w u, str_eq_iff w v, str_eq_iff u v)

pub count-put_bucket :
    (u : Str) (set : List ℕ) (b : Buckets)
    → count_waiters (put_bucket u set b) + length (members u b) ≡ count_waiters b + length set
unfolding count_waiters bucket put_bucket
count-put_bucket u set [] = omega arith
count-put_bucket u set ((w, old) ∷ rest) = ground (arith, count-put_bucket u set rest)

pub count-delete_bucket :
    (u : Str) (b : Buckets)
    → count_waiters (delete_bucket u b) + length (members u b) ≡ count_waiters b
unfolding count_waiters bucket delete_bucket
count-delete_bucket u [] = omega arith
count-delete_bucket u ((w, old) ∷ rest) = ground (arith, count-delete_bucket u rest)

-- With each user once, a deleted bucket is gone and the others stay.
abbrev pub Once : Buckets → Type 0
Once [] = Unit
Once ((u, set) ∷ rest) = (bucket u rest ≡ none) × Once rest

pub bucket-delete_bucket :
    (u v : Str) (b : Buckets)
    → Once b
    → bucket v (delete_bucket u b) ≡ (if str_eq u v then none else bucket v b)
unfolding bucket delete_bucket
bucket-delete_bucket u v [] o = ground arith
bucket-delete_bucket u v ((w, old) ∷ rest) o =
    ground (
      arith,
      o.0,
      bucket-delete_bucket u v rest o.1,
      str_eq_iff w u,
      str_eq_iff w v,
      str_eq_iff u v,
    )

pub put_bucket-Once : (u : Str) (set : List ℕ) (b : Buckets) → Once b → Once (put_bucket u set b)
unfolding put_bucket bucket
put_bucket-Once u set [] o = (refl, tt)
put_bucket-Once u set ((w, old) ∷ rest) o = elim (Bool-cases (str_eq w u)) [
  | inl same ↦ simp same (o.0, o.1)
  | inr other ↦ simp other (
    ground (arith, o.0, bucket-put_bucket u w set rest, str_eq_iff w u, str_eq_iff u w),
    put_bucket-Once u set rest o.1,
  )
]

pub delete_bucket-Once : (u : Str) (b : Buckets) → Once b → Once (delete_bucket u b)
unfolding delete_bucket bucket
delete_bucket-Once u [] o = tt
delete_bucket-Once u ((w, old) ∷ rest) o = elim (Bool-cases (str_eq w u)) [
  | inl same ↦ simp same o.1
  | inr other ↦ simp other (
    ground (arith, o.0, bucket-delete_bucket u w rest o.1, str_eq_iff w u, str_eq_iff u w),
    delete_bucket-Once u rest o.1,
  )
]

pub length-delete_waiter :
    (c : ℕ) (set : List ℕ)
    → length (delete_waiter c set) + (if contains c set then 1 else 0) ≡ length set
unfolding delete_waiter
length-delete_waiter c [] = omega arith
length-delete_waiter c (d ∷ set) = ground (arith, length-delete_waiter c set)

pub contains-delete_waiter :
    (c d : ℕ) (set : List ℕ) → contains d (delete_waiter c set) ≡ true → contains d set ≡ true
unfolding delete_waiter
contains-delete_waiter c d [] h = h
contains-delete_waiter c d (e ∷ set) h = ground (arith, contains-delete_waiter c d set)

pub contains-delete_other :
    (c d : ℕ) (set : List ℕ) → d ≢ c → contains d (delete_waiter c set) ≡ contains d set
unfolding delete_waiter
contains-delete_other c d [] h = refl
contains-delete_other c d (e ∷ set) h = ground (arith, h, contains-delete_other c d set h)

-- No number comes twice.
abbrev pub Distinct : List ℕ → Type 0
Distinct [] = Unit
Distinct (c ∷ set) = (contains c set ≡ false) × Distinct set

pub delete_waiter-Distinct : (c : ℕ) (set : List ℕ) → Distinct set → Distinct (delete_waiter c set)
unfolding delete_waiter
delete_waiter-Distinct c [] h = tt
delete_waiter-Distinct c (d ∷ set) h = elim (Bool-cases (d == c)) [
  | inl same ↦ simp same h.1
  | inr other ↦
      simp other
        (ground (arith, h.0, contains-delete_waiter c d set), delete_waiter-Distinct c set h.1)
]

pub contains-delete_waiter_self :
    (c : ℕ) (set : List ℕ) → Distinct set → contains c (delete_waiter c set) ≡ false
unfolding delete_waiter
contains-delete_waiter_self c [] h = refl
contains-delete_waiter_self c (d ∷ set) h =
    ground (arith, h.0, contains-delete_waiter_self c set h.1)
