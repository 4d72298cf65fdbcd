-- ===== src/Cache/Key/Order.antt =====
-- The order in which parts are added to a key of crates/unixd-cache/src/key.rs.
use Prim.Native.Nat.{Ordering}
use mathlib.Core.List.{Perm, Permᴰ}
use mathlib.Core.Logic.{∥∥₁_elim}
use unixd.Prelude.{
  ◌≡◌, refl, sym, subst, ◌≢◌, Bytes, [], ◌∷◌, none, Result, ok, err, arith, Result-cases, inl, inr,
}
use unixd.Cache.Error.{Error}
use unixd.Cache.Key.{KeyBuilder, Parts, compare_bytes, insert, part}

compare_eq : (xs ys : Bytes) → compare_bytes xs ys ≡ Ordering.eq → xs ≡ ys
unfolding compare_bytes
compare_eq [] [] h = refl
compare_eq [] (y ∷ ys) h = cc
compare_eq (x ∷ xs) [] h = cc
compare_eq (x ∷ xs) (y ∷ ys) h = ground (arith, compare_eq xs ys)

compare_refl : (xs : Bytes) → compare_bytes xs xs ≡ Ordering.eq
unfolding compare_bytes
compare_refl [] = refl
compare_refl (x ∷ xs) = ground (arith, compare_refl xs)

compare_flip :
    (xs ys : Bytes) → compare_bytes xs ys ≡ Ordering.lt → compare_bytes ys xs ≡ Ordering.gt
unfolding compare_bytes
compare_flip [] [] h = cc
compare_flip [] (y ∷ ys) h = refl
compare_flip (x ∷ xs) [] h = cc
compare_flip (x ∷ xs) (y ∷ ys) h = ground (arith, compare_flip xs ys)

compare_flip' :
    (xs ys : Bytes) → compare_bytes xs ys ≡ Ordering.gt → compare_bytes ys xs ≡ Ordering.lt
unfolding compare_bytes
compare_flip' [] [] h = cc
compare_flip' [] (y ∷ ys) h = cc
compare_flip' (x ∷ xs) [] h = refl
compare_flip' (x ∷ xs) (y ∷ ys) h = ground (arith, compare_flip' xs ys)

compare_trans :
    (xs ys zs : Bytes)
    → compare_bytes xs ys ≡ Ordering.lt
    → compare_bytes ys zs ≡ Ordering.lt
    → compare_bytes xs zs ≡ Ordering.lt
unfolding compare_bytes
compare_trans [] [] zs h k = cc
compare_trans [] (y ∷ ys) [] h k = cc
compare_trans [] (y ∷ ys) (z ∷ zs) h k = refl
compare_trans (x ∷ xs) [] zs h k = cc
compare_trans (x ∷ xs) (y ∷ ys) [] h k = cc
compare_trans (x ∷ xs) (y ∷ ys) (z ∷ zs) h k = ground (arith, compare_trans xs ys zs)

insert_comm :
    (a b v w : Bytes) (m : Parts)
    → compare_bytes a b ≡ Ordering.lt
    → ((insert b w (insert a v m).1).1 ≡ (insert a v (insert b w m).1).1)
      × ((insert b w (insert a v m).1).0 ≡ (insert b w m).0)
      × ((insert a v (insert b w m).1).0 ≡ (insert a v m).0)
unfolding insert
insert_comm a b v w [] h = ground (arith, compare_flip a b)
insert_comm a b v w ((k, u) ∷ m) h = ground (
  arith,
  compare_flip a b,
  compare_eq a k,
  compare_eq b k,
  compare_trans a b k,
  compare_flip' b k,
  compare_flip' a k,
  compare_trans a k b,
  insert_comm a b v w m,
)

insert_twice : (a v w : Bytes) (m : Parts) → (insert a w (insert a v m).1).0 ≢ none
unfolding insert
insert_twice a v w [] h = ground (arith, compare_refl a)
insert_twice a v w ((k, u) ∷ m) h =
    ground (arith, compare_refl a, compare_eq a k, insert_twice a v w m)

-- The parts added one by one, as a caller chains `part` with `?`.
unfoldable pub add_parts : KeyBuilder → Parts → Result Error KeyBuilder
add_parts b [] = ok b
add_parts b ((name, value) ∷ rest) = elim (part b name value) [
  | ok b' ↦ add_parts b' rest
  | err e ↦ err e
]

insert_comm_ne :
    (a b v w : Bytes) (m : Parts) (o : Ordering)
    → compare_bytes a b ≡ o
    → a ≢ b
    → ((insert b w (insert a v m).1).1 ≡ (insert a v (insert b w m).1).1)
      × ((insert b w (insert a v m).1).0 ≡ (insert b w m).0)
      × ((insert a v (insert b w m).1).0 ≡ (insert a v m).0)
insert_comm_ne a b v w m Ordering.lt e h = insert_comm a b v w m e
insert_comm_ne a b v w m Ordering.eq e h = absurd (h (compare_eq a b e))
insert_comm_ne a b v w m Ordering.gt e h =
    let (p, q, r) = insert_comm b a w v m (compare_flip' a b e) in (sym p, r, q)

part_ne : (b c d : KeyBuilder) (n v m w : Bytes) → part b n v ≡ ok c → part c m w ≡ ok d → n ≢ m
unfolding part
part_ne b c d n v m w h k e = ground (arith, insert_twice n v w b.parts, insert_twice m v w b.parts)

part_swap :
    (b c d : KeyBuilder) (n v m w : Bytes)
    → part b n v ≡ ok c
    → part c m w ≡ ok d
    → (c' : KeyBuilder) × (part b m w ≡ ok c') × (part c' n v ≡ ok d)
unfolding part
part_swap b c d n v m w h k =
    let swapped = insert_comm_ne n m v w b.parts _ refl (part_ne b c d n v m w h k) in
    (record b { parts = (insert m w b.parts).1 }, ground (arith, swapped), ground (arith, swapped))

-- Adding a part first, and the others to what it gives.
add_parts-cons :
    (b b' t : KeyBuilder) (n v : Bytes) (rest : Parts)
    → part b n v ≡ ok b'
    → add_parts b' rest ≡ ok t
    → add_parts b ((n, v) ∷ rest) ≡ ok t
unfolding add_parts
add_parts-cons b b' t n v rest h k = rw (h, add_parts) k

add_parts-inv :
    (b t : KeyBuilder) (n v : Bytes) (rest : Parts)
    → add_parts b ((n, v) ∷ rest) ≡ ok t
    → (b' : KeyBuilder) × (part b n v ≡ ok b') × (add_parts b' rest ≡ ok t)
unfolding add_parts
add_parts-inv b t n v rest h = elim (Result-cases (part b n v)) [
  | inl (b', e) ↦ (b', e, rw (e, add_parts) at h)
  | inr (x, e) ↦ cc (rw (e, add_parts) at h)
]

add_parts-permᴰ :
    (ps qs : Parts)
    → Permᴰ ps qs
    → (b t : KeyBuilder) → add_parts b ps ≡ ok t
    → add_parts b qs ≡ ok t
add_parts-permᴰ [] [] Permᴰ.nil b t h = h
add_parts-permᴰ (x ∷ ps) (y ∷ qs) (Permᴰ.cons e p) b t h =
    subst (λ z. add_parts b (z ∷ qs) ≡ ok t) e
      (let (b', k, r) = add_parts-inv b t x.0 x.1 ps h in
        add_parts-cons b b' t x.0 x.1 qs k (add_parts-permᴰ ps qs p b' t r))
add_parts-permᴰ (x ∷ y ∷ ps) (y' ∷ x' ∷ _) (Permᴰ.swap e f) b t h =
    let (c, k, r) = add_parts-inv b t x.0 x.1 (y ∷ ps) h in
    let (d, l, q) = add_parts-inv c t y.0 y.1 ps r in
    let (c', m, o) = part_swap b c d x.0 x.1 y.0 y.1 k l in
    subst (λ z. add_parts b (z ∷ x' ∷ ps) ≡ ok t) f
      (subst (λ z. add_parts b (y ∷ z ∷ ps) ≡ ok t) e
        (add_parts-cons b c' t y.0 y.1 (x ∷ ps) m (add_parts-cons c' d t x.0 x.1 ps o q)))
add_parts-permᴰ ps qs (Permᴰ.trans p q) b t h =
    add_parts-permᴰ _ qs q b t (add_parts-permᴰ ps _ p b t h)

Error-set : IsSet (Result Error KeyBuilder)
Error-set = hlevel

-- Parts with distinct names make the same builder, and so the same key, in whatever order they are
-- added: a chain of `part` calls that succeeds succeeds with the same result for every permutation
-- of its parts.
pub add_parts-perm :
    (b t : KeyBuilder) (ps qs : Parts) → Perm ps qs → add_parts b ps ≡ ok t → add_parts b qs ≡ ok t
add_parts-perm b t ps qs p h = ∥∥₁_elim p (Error-set _ _) (λ q. add_parts-permᴰ ps qs q b t h)
