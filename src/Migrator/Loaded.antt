-- ===== src/Migrator/Loaded.antt =====
-- What `loadMigrations` of internal/db/migrator.go gives.
use clawbot_server.Base.{
  String, List, [], ◌∷◌, true, false, ◌≡◌, ◌≢◌, refl, sym, subst, ◌∙◌, All, ◌⊎◌, inl, inr, arith,
  Bool-cases, IsAmong, ◌==◌, ne_of_test,
}
use clawbot_server.Base.Int.{ℤ, eqb_ℤ, eqb_ℤ-sound, eqb_ℤ_refl}
use clawbot_server.Migrator.{Migration, ok, >>=-eq-ok, ok-injective}
use clawbot_server.Migrator.Files.{
  Side, up, down, with_file, new_item, place, read_name, group, is_missing, check_complete, sort,
  load_migrations,
}
use clawbot_server.Migrator.Order.{
  IsAscending, IsSingle, HasVersion, Permutes, All-Permutes, IsSingle-Permutes, HasVersion-Permutes,
  sort-Permutes, sort-IsAscending,
}

with_file-version :
    (side : Side) (entry : String) (item : Migration)
    → (with_file side entry item).version ≡ item.version
with_file-version up entry item = refl
with_file-version down entry item = refl

module _ (version : ℤ) (side : Side) (entry : String) where
  All-place :
      (P : Migration → Type 0) (items : List Migration)
      → ((item : Migration) → item.version ≡ version → P item → P (with_file side entry item))
      → P (with_file side entry (new_item version))
      → All P items
      → All P (place version side entry items)
  unfolding place
  All-place P [] change new all = (new, tt)
  All-place P (item ∷ items) change new (first, rest) =
      elim (Bool-cases (eqb_ℤ item.version version)) [
        | inl same ↦ rw same ((change item (eqb_ℤ-sound item.version version same) first, rest))
        | inr other ↦ rw other ((first, All-place P items change new rest))
      ]

  IsSingle-place :
      (items : List Migration) → IsSingle items → IsSingle (place version side entry items)
  unfolding place
  IsSingle-place [] single = (tt, tt)
  IsSingle-place (item ∷ items) (apart, single) = elim (Bool-cases (eqb_ℤ item.version version)) [
    | inl same ↦ rw (same, with_file-version side entry item) ((apart, single))
    | inr other ↦ rw other (
      All-place (λ n. item.version ≢ n.version) items
          (λ n at apart_n. rw (with_file-version side entry n) apart_n)
          (rw (with_file-version side entry (new_item version)) (λ same.
            cc (other, subst (λ v. eqb_ℤ item.version v ≡ true) same (eqb_ℤ_refl item.version))))
          apart,
      IsSingle-place items single,
    )
  ]

  -- The version of the entry is there, and those before stay.
  HasVersion-place_self :
      (items : List Migration) → HasVersion version (place version side entry items)
  unfolding place
  HasVersion-place_self [] = inl (sym (with_file-version side entry (new_item version)))
  HasVersion-place_self (item ∷ items) = elim (Bool-cases (eqb_ℤ item.version version)) [
    | inl same ↦ rw same (
        inl (sym (eqb_ℤ-sound item.version version same) ∙ sym (with_file-version side entry item)))
    | inr other ↦ rw other (inr (HasVersion-place_self items))
  ]

  HasVersion-place :
      (v : ℤ) (items : List Migration)
      → HasVersion v items
      → HasVersion v (place version side entry items)
  unfolding place
  HasVersion-place v [] has = absurd has
  HasVersion-place v (item ∷ items) has = elim (Bool-cases (eqb_ℤ item.version version)) [
    | inl same ↦ rw (same, with_file-version side entry item) has
    | inr other ↦
        rw other
          (elim has [ inl here ↦ inl here | inr later ↦ inr (HasVersion-place v items later) ])
  ]

-- A file of a migration is an entry whose name says its version and its side.
abbrev pub NamesFile : List String → ℤ → Side → String → Type 0
NamesFile entries version side file = IsAmong file entries × (read_name file ≡ ok (version, side))

abbrev FitsFile : List String → ℤ → Side → String → Type 0
FitsFile entries version side file = (file ≡ "") ⊎ NamesFile entries version side file

abbrev pub Fits : List String → Migration → Type 0
Fits entries m =
    FitsFile entries m.version up m.up_file × FitsFile entries m.version down m.down_file

with_file-Fits :
    (entries : List String) (side : Side) (entry : String) (item : Migration)
    → NamesFile entries item.version side entry
    → Fits entries item
    → Fits entries (with_file side entry item)
with_file-Fits entries up entry item named (above, below) = (inr named, below)
with_file-Fits entries down entry item named (above, below) = (above, inr named)

-- The version of an entry is one of these.
abbrev pub IsHeld : List Migration → String → Type 0
IsHeld ms entry =
    (version : ℤ) × (side : Side) × (read_name entry ≡ ok (version, side)) × HasVersion version ms

-- What the first loop keeps.
abbrev pub Grows : List String → List Migration → List Migration → List String → Type 0
Grows entries items result rest =
    IsSingle result
    × All (Fits entries) result
    × ((v : ℤ) → HasVersion v items → HasVersion v result)
    × All (IsHeld result) rest

pub group-Grows :
    (entries : List String) (items : List Migration) (rest : List String) (result : List Migration)
    → group items rest ≡ ok result
    → All (λ entry. IsAmong entry entries) rest
    → IsSingle items
    → All (Fits entries) items
    → Grows entries items result rest
unfolding group
group-Grows entries items [] result h among single fits =
    let same = ok-injective h in
    (
      subst IsSingle same single,
      subst (All (Fits entries)) same fits,
      (λ v has. subst (HasVersion v) same has),
      tt,
    )
group-Grows entries items (entry ∷ rest) result h (here, among) single fits =
    let ((version, side), read, later) = >>=-eq-ok (read_name entry) _ h in
    let (single_end, fits_end, kept, held) =
      group-Grows entries (place version side entry items) rest result later among
        (IsSingle-place version side entry items single)
        (All-place version side entry (Fits entries) items
          (λ item at fit. with_file-Fits entries side entry item ((here, rw at read)) fit)
          (with_file-Fits entries side entry (new_item version) ((here, read))
            ((inl refl, inl refl)))
          fits) in
    (
      single_end,
      fits_end,
      (λ v has. kept v (HasVersion-place version side entry v items has)),
      ((version, side, read, kept version (HasVersion-place_self version side entry items)), held),
    )

pub check_complete-All :
    (items : List Migration) (passed : Unit {0})
    → check_complete items ≡ ok passed
    → All (λ m. is_missing m ≡ false) items
unfolding check_complete
check_complete-All [] passed h = tt
check_complete-All (item ∷ items) passed h = elim (Bool-cases (is_missing item)) [
  | inl missing ↦ cc
  | inr present ↦ (present, check_complete-All items passed (ground arith))
]

abbrev pub HasFiles : List String → Migration → Type 0
HasFiles entries m =
    NamesFile entries m.version up m.up_file × NamesFile entries m.version down m.down_file

NamesFile-given :
    (entries : List String) (version : ℤ) (side : Side) (file : String)
    → (file == "") ≡ false
    → FitsFile entries version side file
    → NamesFile entries version side file
NamesFile-given entries version side file given (inl none) = absurd (ne_of_test file "" given none)
NamesFile-given entries version side file given (inr named) = named

HasFiles-complete :
    (entries : List String) (m : Migration)
    → is_missing m ≡ false
    → Fits entries m
    → HasFiles entries m
HasFiles-complete entries m present (above, below) = (
  NamesFile-given entries m.version up m.up_file (ground arith) above,
  NamesFile-given entries m.version down m.down_file (ground arith) below,
)

All-both :
    (entries : List String) (ms : List Migration)
    → All (λ m. is_missing m ≡ false) ms
    → All (Fits entries) ms
    → All (HasFiles entries) ms
All-both entries [] present fits = tt
All-both entries (m ∷ ms) (p, present) (f, fits) =
    (HasFiles-complete entries m p f, All-both entries ms present fits)

All-weaker :
    (P Q : String → Type 0) (xs : List String) → ((x : String) → P x → Q x) → All P xs → All Q xs
All-weaker P Q [] weaker all = tt
All-weaker P Q (x ∷ xs) weaker (first, rest) = (weaker x first, All-weaker P Q xs weaker rest)

pub All-IsAmong : (xs : List String) → All (λ x. IsAmong x xs) xs
All-IsAmong [] = tt
All-IsAmong (x ∷ xs) = (
  inl refl,
  All-weaker (λ y. IsAmong y xs) (λ y. IsAmong y (x ∷ xs)) xs (λ y among. inr among)
      (All-IsAmong xs),
)

-- The migrations of these entries.
abbrev pub IsLoaded : List String → List Migration → Type 0
IsLoaded entries ms = IsAscending ms × All (HasFiles entries) ms × All (IsHeld ms) entries

IsHeld-Permutes :
    (ms ns : List Migration) (entry : String) → Permutes ms ns → IsHeld ms entry → IsHeld ns entry
IsHeld-Permutes ms ns entry p (version, side, read, has) =
    (version, side, read, HasVersion-Permutes version p has)

-- Whatever the order in which the map is taken, migrations that load are in ascending order of their
-- versions, no version twice. Each has an up file and a down file among the embedded files, whose
-- names say its version and which of the two they are; and the version in the name of every embedded
-- file is that of a migration.
pub load_migrations-IsLoaded :
    (order : List Migration → List Migration) (entries : List String) (ms : List Migration)
    → ((items : List Migration) → Permutes items (order items))
    → load_migrations order entries ≡ ok ms
    → IsLoaded entries ms
unfolding load_migrations
load_migrations-IsLoaded order entries ms permutes h =
    let (items, grouped, later) = >>=-eq-ok (group [] entries) _ h in
    let (passed, complete, last) = >>=-eq-ok (check_complete (order items)) _ later in
    let (single, fits, kept, held) =
      group-Grows entries [] entries items grouped (All-IsAmong entries) tt tt in
    let sorted = Permutes.trans (permutes items) (sort-Permutes (order items)) in
    let same = ok-injective last in
    subst (IsLoaded entries) same (
      sort-IsAscending (order items) (IsSingle-Permutes (permutes items) single),
      All-Permutes (HasFiles entries) (sort-Permutes (order items)) (
          All-both entries (order items) (check_complete-All (order items) passed complete)
            (All-Permutes (Fits entries) (permutes items) fits)),
      All-weaker (IsHeld items) (IsHeld (sort (order items))) entries
          (λ entry. IsHeld-Permutes items (sort (order items)) entry sorted) held,
    )
