-- ===== src/Tests/Answers.antt =====
-- Stores that are opened for each request, at the database of Storage.
use platarium_core.Base.{◌≡◌, refl, ap, ◌∙◌, some, [], ◌∷◌, ok}
use platarium_core.Data.BigEndian.{bytes_eq}
use platarium_core.Storage.{Bytes, last_put}
use platarium_core.Storage.Store.{ensure_schema}
use platarium_core.Storage.Store.Reopen.{IsStoring, ensure_schema_again}
use platarium_core.Tests.Storage.{puts_db, or_before, last_put-append_lem}

last_put_single : (k v : Bytes) → last_put ((k, v) ∷ []) k ≡ some v
unfolding last_put
last_put_single k v = rw ((bytes_eq.same_iff k k).1 refl) refl

opened_test : (ensure_schema puts_db []).1 ≡ ok tt
unfolding ensure_schema last_put
opened_test = refl

puts_db-IsStoring : IsStoring puts_db
puts_db-IsStoring = λ db k v h. ap ok (
    last_put-append_lem db ((k, v) ∷ []) k
    ∙ ap (λ o. or_before o (last_put db k)) (last_put_single k v))

ensure_schema_again_example :
    ensure_schema puts_db (ensure_schema puts_db []).0 ≡ ((ensure_schema puts_db []).0, ok tt)
ensure_schema_again_example = ensure_schema_again puts_db puts_db-IsStoring [] opened_test
