-- ===== src/Heuristics/Needs.antt =====
-- What the buckets of the search still need, as a list of goals.
use mathlib.Core.List.{Permᴰ}
use mathlib.Core.List.Permᴰ
use coinjoin_pipeline.Base.{
  ℕ, ◌+◌, ◌-◌, ◌≡◌, refl, ap, ◌∙◌, List, [], ◌∷◌, ◌++◌, map, arith, leb, sum, Bool-cases, inl, inr,
  count,
}
use coinjoin_pipeline.Heuristics.Subset.{
  Bucket, need, remaining, active, insert_bucket, sort_buckets, insert_descending, sort_descending,
}
use coinjoin_pipeline.Heuristics.Partition.{positive}

abbrev pub needs : List Bucket → List ℕ
needs buckets = map need buckets

pub needs-active : (buckets : List Bucket) → needs (active buckets) ≡ positive (needs buckets)
unfolding active positive remaining
needs-active [] = refl
needs-active (b ∷ buckets) = ground (arith, needs-active buckets)

insert_bucket-perm :
    (b : Bucket) (buckets : List Bucket) → Permᴰ (b ∷ buckets) (insert_bucket b buckets)
unfolding insert_bucket
insert_bucket-perm b [] = Permᴰ.refl (b ∷ [])
insert_bucket-perm b (c ∷ buckets) = elim (Bool-cases (leb (need c) (need b))) [
  | inl first ↦ rw (first, insert_bucket) (Permᴰ.refl (b ∷ c ∷ buckets))
  | inr later ↦
      rw (later, insert_bucket)
        (Permᴰ.trans (Permᴰ.swap refl refl) (Permᴰ.cons refl (insert_bucket-perm b buckets)))
]

pub sort_buckets-perm : (buckets : List Bucket) → Permᴰ buckets (sort_buckets buckets)
unfolding sort_buckets
sort_buckets-perm [] = Permᴰ.nil
sort_buckets-perm (b ∷ buckets) =
    Permᴰ.trans (Permᴰ.cons refl (sort_buckets-perm buckets))
      (insert_bucket-perm b (sort_buckets buckets))

insert_descending-perm : (x : ℕ) (xs : List ℕ) → Permᴰ (x ∷ xs) (insert_descending x xs)
unfolding insert_descending
insert_descending-perm x [] = Permᴰ.refl (x ∷ [])
insert_descending-perm x (y ∷ ys) = elim (Bool-cases (leb y x)) [
  | inl first ↦ rw (first, insert_descending) (Permᴰ.refl (x ∷ y ∷ ys))
  | inr later ↦
      rw (later, insert_descending)
        (Permᴰ.trans (Permᴰ.swap refl refl) (Permᴰ.cons refl (insert_descending-perm x ys)))
]

pub sort_descending-perm : (xs : List ℕ) → Permᴰ xs (sort_descending xs)
unfolding sort_descending
sort_descending-perm [] = Permᴰ.nil
sort_descending-perm (x ∷ xs) =
    Permᴰ.trans (Permᴰ.cons refl (sort_descending-perm xs))
      (insert_descending-perm x (sort_descending xs))

pub count-permᴰ : (a : ℕ) {xs ys : List ℕ} → Permᴰ xs ys → count a xs ≡ count a ys
unfolding count
count-permᴰ a Permᴰ.nil = refl
count-permᴰ a (Permᴰ.cons p ps) = cc (count-permᴰ a ps)
count-permᴰ a (Permᴰ.swap {a = x} {b = y} {l = l} p q) = ground arith
count-permᴰ a (Permᴰ.trans p q) = count-permᴰ a p ∙ count-permᴰ a q

pub sum-permᴰ : {xs ys : List ℕ} → Permᴰ xs ys → sum xs ≡ sum ys
sum-permᴰ Permᴰ.nil = refl
sum-permᴰ (Permᴰ.cons p ps) = omega (arith, p, sum-permᴰ ps)
sum-permᴰ (Permᴰ.swap p q) = omega (arith, p, q)
sum-permᴰ (Permᴰ.trans p q) = sum-permᴰ p ∙ sum-permᴰ q

-- Putting `v` into a bucket lowers its need by `v`.
pub need-put : (b : Bucket) (v : ℕ) → remaining b.goal (b.current + v) ≡ need b - v
unfolding remaining
need-put b v = ground arith

pub map-append : (xs ys : List Bucket) → needs (xs ++ ys) ≡ needs xs ++ needs ys
map-append [] ys = refl
map-append (x ∷ xs) ys = ap (λ l. need x ∷ l) (map-append xs ys)

-- A split of the needs is one of the buckets.
pub record BucketSplit (buckets : List Bucket) (xs : List ℕ) (n : ℕ) (ys : List ℕ) : Type 0 where
  pub before : List Bucket
  pub bucket : Bucket
  pub after : List Bucket
  pub split : buckets ≡ before ++ bucket ∷ after
  pub needs_before : needs before ≡ xs
  pub need_bucket : need bucket ≡ n
  pub needs_after : needs after ≡ ys

pub bucket_split :
    (buckets : List Bucket) (xs : List ℕ) (n : ℕ) (ys : List ℕ)
    → needs buckets ≡ xs ++ n ∷ ys
    → BucketSplit buckets xs n ys
bucket_split [] [] n ys h = cc
bucket_split [] (x ∷ xs) n ys h = cc
bucket_split (b ∷ buckets) [] n ys h = record {
  before = [];
  bucket = b;
  after = buckets;
  split = refl;
  needs_before = refl;
  need_bucket = cc;
  needs_after = cc;
}
bucket_split (b ∷ buckets) (x ∷ xs) n ys h =
    let r = bucket_split buckets xs n ys (cc) in
    record {
      before = b ∷ r.before;
      bucket = r.bucket;
      after = r.after;
      split = ap (λ l. b ∷ l) r.split;
      needs_before = cc (r.needs_before);
      need_bucket = r.need_bucket;
      needs_after = r.needs_after;
    }
