-- ===== src/Migrator/Order.antt =====
-- The order of the migrations: the sort of `loadMigrations` of internal/db/migrator.go, and what it
-- keeps of the map, which `range` takes in any order.
use clawbot_server.Base.{
  List, [], ◌∷◌, true, false, ◌≡◌, ◌≢◌, refl, sym, ap, ◌∙◌, All, ◌⊎◌, inl, inr, Bool-cases,
}
use clawbot_server.Base.Int.{ℤ, ltb_ℤ, ltb_ℤ_trans, ltb_ℤ_total, ltb_ℤ_asym}
use clawbot_server.Migrator.{Migration}
use clawbot_server.Migrator.Files.{insert, sort}

abbrev pub IsBelow : Migration → Migration → Type 0
IsBelow m n = ltb_ℤ m.version n.version ≡ true

abbrev pub IsAscending : List Migration → Type 0
IsAscending [] = Unit {0}
IsAscending (m ∷ ms) = All (IsBelow m) ms × IsAscending ms

-- No version twice.
abbrev pub IsSingle : List Migration → Type 0
IsSingle [] = Unit {0}
IsSingle (m ∷ ms) = All (λ n. m.version ≢ n.version) ms × IsSingle ms

abbrev pub HasVersion : ℤ → List Migration → Type 0
HasVersion version [] = ⊥
HasVersion version (m ∷ ms) = (version ≡ m.version) ⊎ HasVersion version ms

-- Two orders of the same migrations.
pub data Permutes : List Migration → List Migration → Type 0 where
  nil : Permutes [] []
  cons : (m : Migration) {xs ys : List Migration} → Permutes xs ys → Permutes (m ∷ xs) (m ∷ ys)
  swap : (m n : Migration) (xs : List Migration) → Permutes (m ∷ n ∷ xs) (n ∷ m ∷ xs)
  trans : {xs ys zs : List Migration} → Permutes xs ys → Permutes ys zs → Permutes xs zs

pub Permutes-refl : (ms : List Migration) → Permutes ms ms
Permutes-refl [] = Permutes.nil
Permutes-refl (m ∷ ms) = Permutes.cons m (Permutes-refl ms)

pub All-Permutes :
    (P : Migration → Type 0) {xs ys : List Migration} → Permutes xs ys → All P xs → All P ys
All-Permutes P Permutes.nil all = all
All-Permutes P (Permutes.cons m p) (first, rest) = (first, All-Permutes P p rest)
All-Permutes P (Permutes.swap m n xs) (first, (second, rest)) = (second, (first, rest))
All-Permutes P (Permutes.trans p q) all = All-Permutes P q (All-Permutes P p all)

pub IsSingle-Permutes : {xs ys : List Migration} → Permutes xs ys → IsSingle xs → IsSingle ys
IsSingle-Permutes Permutes.nil single = single
IsSingle-Permutes (Permutes.cons m p) (apart, single) =
    (All-Permutes (λ n. m.version ≢ n.version) p apart, IsSingle-Permutes p single)
IsSingle-Permutes (Permutes.swap m n xs) ((unlike, apart), (apart_n, single)) =
    (((λ same. unlike (sym same)), apart_n), (apart, single))
IsSingle-Permutes (Permutes.trans p q) single = IsSingle-Permutes q (IsSingle-Permutes p single)

pub HasVersion-Permutes :
    (v : ℤ) {xs ys : List Migration} → Permutes xs ys → HasVersion v xs → HasVersion v ys
HasVersion-Permutes v Permutes.nil has = has
HasVersion-Permutes v (Permutes.cons m p) (inl same) = inl same
HasVersion-Permutes v (Permutes.cons m p) (inr later) = inr (HasVersion-Permutes v p later)
HasVersion-Permutes v (Permutes.swap m n xs) (inl same) = inr (inl same)
HasVersion-Permutes v (Permutes.swap m n xs) (inr (inl same)) = inl same
HasVersion-Permutes v (Permutes.swap m n xs) (inr (inr later)) = inr (inr later)
HasVersion-Permutes v (Permutes.trans p q) has =
    HasVersion-Permutes v q (HasVersion-Permutes v p has)

insert-Permutes : (m : Migration) (ms : List Migration) → Permutes (m ∷ ms) (insert m ms)
unfolding insert
insert-Permutes m [] = Permutes.cons _ Permutes.nil
insert-Permutes m (n ∷ ms) = elim (Bool-cases (ltb_ℤ m.version n.version)) [
  | inl below ↦ rw below (Permutes-refl (m ∷ n ∷ ms))
  | inr above ↦
      rw above (Permutes.trans (Permutes.swap _ _ _) (Permutes.cons _ (insert-Permutes m ms)))
]

pub sort-Permutes : (ms : List Migration) → Permutes ms (sort ms)
unfolding sort
sort-Permutes [] = Permutes.nil
sort-Permutes (m ∷ ms) =
    Permutes.trans (Permutes.cons _ (sort-Permutes ms)) (insert-Permutes m (sort ms))

All-IsBelow :
    (m n : Migration) (ms : List Migration) → IsBelow m n → All (IsBelow n) ms → All (IsBelow m) ms
All-IsBelow m n [] below all = tt
All-IsBelow m n (k ∷ ms) below (first, rest) =
    (ltb_ℤ_trans m.version n.version k.version below first, All-IsBelow m n ms below rest)

insert-IsAscending :
    (m : Migration) (ms : List Migration)
    → All (λ n. m.version ≢ n.version) ms
    → IsAscending ms
    → IsAscending (insert m ms)
unfolding insert
insert-IsAscending m [] apart ascending = (tt, tt)
insert-IsAscending m (n ∷ ms) (apart, rest) (below, ascending) =
    elim (Bool-cases (ltb_ℤ m.version n.version)) [
      | inl first ↦ rw first ((first, All-IsBelow m n ms first below), (below, ascending))
      | inr later ↦ rw later (
        All-Permutes (IsBelow n) (insert-Permutes m ms)
            (ltb_ℤ_total m.version n.version apart later, below),
        insert-IsAscending m ms rest ascending,
      )
    ]

pub sort-IsAscending : (ms : List Migration) → IsSingle ms → IsAscending (sort ms)
unfolding sort
sort-IsAscending [] single = tt
sort-IsAscending (m ∷ ms) (apart, single) =
    insert-IsAscending m (sort ms)
      (All-Permutes (λ n. m.version ≢ n.version) (sort-Permutes ms) apart)
      (sort-IsAscending ms single)

insert_first :
    (m n : Migration) (ms : List Migration) → IsBelow m n → insert m (n ∷ ms) ≡ m ∷ n ∷ ms
unfolding insert
insert_first m n ms below = rw below refl

insert_later :
    (m n : Migration) (ms : List Migration)
    → ltb_ℤ m.version n.version ≡ false
    → insert m (n ∷ ms) ≡ n ∷ insert m ms
unfolding insert
insert_later m n ms above = rw above refl

-- What is not below a number is not below a smaller one.
above_lower : (a b c : ℤ) → ltb_ℤ a b ≡ true → ltb_ℤ c b ≡ false → ltb_ℤ c a ≡ false
above_lower a b c below above = elim (Bool-cases (ltb_ℤ c a)) [
  | inl lower ↦ cc (ltb_ℤ_trans c a b lower below)
  | inr h ↦ h
]

-- The lower one of two that both come first.
insert_two :
    (m n k : Migration) (ms : List Migration)
    → IsBelow m n
    → IsBelow m k
    → IsBelow n k
    → insert m (insert n (k ∷ ms)) ≡ insert n (insert m (k ∷ ms))
insert_two m n k ms mn mk nk =
    rw
      (
        insert_first n k ms nk,
        insert_first m k ms mk,
        insert_first m n (k ∷ ms) mn,
        insert_later n m (k ∷ ms) (ltb_ℤ_asym m.version n.version mn),
        insert_first n k ms nk,
      )
      refl

insert_apart :
    (m n k : Migration) (ms : List Migration)
    → IsBelow m k
    → ltb_ℤ n.version k.version ≡ false
    → insert m (insert n (k ∷ ms)) ≡ insert n (insert m (k ∷ ms))
insert_apart m n k ms mk nk =
    rw
      (
        insert_later n k ms nk,
        insert_first m k (insert n ms) mk,
        insert_first m k ms mk,
        insert_later n m (k ∷ ms) (above_lower m.version k.version n.version mk nk),
        insert_later n k ms nk,
      )
      refl

-- Two different migrations may be inserted in any order.
insert-insert :
    (m n : Migration) (ms : List Migration)
    → m.version ≢ n.version
    → insert m (insert n ms) ≡ insert n (insert m ms)
unfolding insert
insert-insert m n [] apart = elim (Bool-cases (ltb_ℤ m.version n.version)) [
  | inl below ↦ rw below (rw (ltb_ℤ_asym m.version n.version below) refl)
  | inr above ↦ rw above (rw (ltb_ℤ_total m.version n.version apart above) refl)
]
insert-insert m n (k ∷ ms) apart = elim (Bool-cases (ltb_ℤ m.version k.version)) [
  | inl mk ↦ elim (Bool-cases (ltb_ℤ n.version k.version)) [
    | inl nk ↦ elim (Bool-cases (ltb_ℤ m.version n.version)) [
      | inl mn ↦ insert_two m n k ms mn mk nk
      | inr nm ↦ sym (insert_two n m k ms (ltb_ℤ_total m.version n.version apart nm) nk mk)
    ]
    | inr nk ↦ insert_apart m n k ms mk nk
  ]
  | inr mk ↦ elim (Bool-cases (ltb_ℤ n.version k.version)) [
    | inl nk ↦ sym (insert_apart n m k ms nk mk)
    | inr nk ↦
        rw
          (
            insert_later n k ms nk,
            insert_later m k ms mk,
            insert_later m k (insert n ms) mk,
            insert_later n k (insert m ms) nk,
          )
          (ap (◌∷◌ k) (insert-insert m n ms apart))
  ]
]

pub sort-Permutes_eq : {xs ys : List Migration} → Permutes xs ys → IsSingle xs → sort xs ≡ sort ys
unfolding sort
sort-Permutes_eq Permutes.nil single = refl
sort-Permutes_eq (Permutes.cons m p) (apart, single) = ap (insert m) (sort-Permutes_eq p single)
sort-Permutes_eq (Permutes.swap m n xs) ((unlike, apart), rest) = insert-insert m n (sort xs) unlike
sort-Permutes_eq (Permutes.trans p q) single =
    sort-Permutes_eq p single ∙ sort-Permutes_eq q (IsSingle-Permutes p single)
