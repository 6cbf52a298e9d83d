-- ===== src/Migrator/AnyOrder.antt =====
-- `loadMigrations` of internal/db/migrator.go does not depend on the order in which `range` takes
-- its map.
use clawbot_server.Base.{List, [], ◌∷◌, String, ◌≡◌, refl, sym, ap, ◌∙◌, All, false}
use clawbot_server.Migrator.{Migration, ok, >>=-eq-ok}
use clawbot_server.Migrator.Files.{group, is_missing, check_complete, load_migrations}
use clawbot_server.Migrator.Order.{Permutes, All-Permutes, IsSingle-Permutes, sort-Permutes_eq}
use clawbot_server.Migrator.Loaded.{group-Grows, check_complete-All, All-IsAmong}

check_complete_of_All :
    (items : List Migration) → All (λ m. is_missing m ≡ false) items → check_complete items ≡ ok tt
unfolding check_complete
check_complete_of_All [] present = refl
check_complete_of_All (item ∷ items) (p, present) = rw p (check_complete_of_All items present)

Permutes-sym : {xs ys : List Migration} → Permutes xs ys → Permutes ys xs
Permutes-sym Permutes.nil = Permutes.nil
Permutes-sym (Permutes.cons m p) = Permutes.cons m (Permutes-sym p)
Permutes-sym (Permutes.swap m n xs) = Permutes.swap n m xs
Permutes-sym (Permutes.trans p q) = Permutes.trans (Permutes-sym q) (Permutes-sym p)

-- Migrations that load with the map taken in one order load with it taken in any other, and they are
-- the same, in the same order.
pub load_migrations_any_order :
    (order other : List Migration → List Migration) (entries : List String) (ms : List Migration)
    → ((items : List Migration) → Permutes items (order items))
    → ((items : List Migration) → Permutes items (other items))
    → load_migrations order entries ≡ ok ms
    → load_migrations other entries ≡ ok ms
unfolding load_migrations
load_migrations_any_order order other entries ms p q h =
    let (items, grouped, later) = >>=-eq-ok (group [] entries) _ h in
    let (passed, complete, last) = >>=-eq-ok (check_complete (order items)) _ later in
    let (single, fits, kept, held) =
      group-Grows entries [] entries items grouped (All-IsAmong entries) tt tt in
    let turned = Permutes.trans (Permutes-sym (p items)) (q items) in
    let present =
      All-Permutes (λ m. is_missing m ≡ false) turned
        (check_complete-All (order items) passed complete) in
    let same = sort-Permutes_eq turned (IsSingle-Permutes (p items) single) in
    rw grouped (rw (check_complete_of_All (other items) present) (ap ok (sym same) ∙ last))
