-- ===== src/Storage/Store/Reopen.antt =====
-- src/storage/migrations.rs: opening a store a second time.
use mathlib.Core.Path.{subst}
use platarium_core.Base.{
  PlatariumError, other, unsupported_version, ◌≡◌, refl, sym, ap, ◌∙◌, inl, inr, false, some, ltb,
  length, Result, ok, err, arith, Bool-cases, Result-cases, Option-cases,
}
use platarium_core.Data.BigEndian.{to_be_bytes, from_be_bytes}
use platarium_core.Storage.{Bytes, Database}
use platarium_core.Storage.Schema.{key_meta_schema, schema_version}
use platarium_core.Storage.Store.{take_bytes, migrate, ensure_schema}

-- What RocksDB documents of a single put: the value can be read where it succeeded.
abbrev pub IsStoring : {Db : Type 0} → Database Db → Type 0
IsStoring {Db} d =
    (db : Db) (key value : Bytes)
    → (d.put db key value).1 ≡ ok tt
    → d.get (d.put db key value).0 key ≡ ok (some value)

module _ {Db : Type 0} (d : Database Db) where
  -- A store of this version is left as it is.
  ensure_schema-current :
      (db : Db) (bytes : Bytes)
      → d.get db key_meta_schema ≡ ok (some bytes)
      → ltb (length bytes) 4 ≡ false
      → from_be_bytes 0 (take_bytes 4 bytes) ≡ schema_version
      → ensure_schema d db ≡ (db, ok tt)
  unfolding ensure_schema
  ensure_schema-current db bytes there long version = rw (ensure_schema, there, long, version) refl

  abbrev IsSettled : Db × Result (Unit {0}) → Type 0
  IsSettled p = p.1 ≡ ok tt → ensure_schema d p.0 ≡ (p.0, ok tt)

  put-IsSettled :
      IsStoring d → (db : Db) → IsSettled (d.put db key_meta_schema (to_be_bytes 4 schema_version))
  unfolding to_be_bytes from_be_bytes
  put-IsSettled storing db done =
      ensure_schema-current (d.put db key_meta_schema (to_be_bytes 4 schema_version)).0
        (to_be_bytes 4 schema_version)
        (storing db key_meta_schema (to_be_bytes 4 schema_version) done) refl refl

  refused : (db : Db) (e : PlatariumError) → IsSettled (db, err e)
  refused db e h = absurd (ground (arith, h))

  opens_as :
      (db : Db) (p : Db × Result (Unit {0}))
      → ensure_schema d db ≡ p
      → IsSettled p
      → IsSettled (ensure_schema d db)
  opens_as db p e h = subst IsSettled (sym e) h

  ensure_schema-versioned :
      IsStoring d
      → (db : Db) (bytes : Bytes) → d.get db key_meta_schema ≡ ok (some bytes)
      → ltb (length bytes) 4 ≡ false
      → IsSettled (ensure_schema d db)
  unfolding ensure_schema
  ensure_schema-versioned storing db bytes read long =
      let version = from_be_bytes 0 (take_bytes 4 bytes) in
      elim (Bool-cases (ltb schema_version version)) [
        | inl newer ↦
            opens_as db (db, err (unsupported_version version))
              (rw (ensure_schema, read, long, newer) refl)
              (refused db (unsupported_version version))
        | inr fine ↦ elim (Bool-cases (ltb version schema_version)) [
          | inl older ↦
              let zeroth : version ≡ 0 = ground (arith, older) in
              opens_as db (d.put db key_meta_schema (to_be_bytes 4 schema_version))
                (rw (ensure_schema, read, long, fine, older) (rw (migrate, zeroth) refl))
                (put-IsSettled storing db)
          | inr equal ↦
              let current : version ≡ schema_version = ground (arith, fine, equal) in
              opens_as db (db, ok tt) (ensure_schema-current db bytes read long current)
                (λ _. ensure_schema-current db bytes read long current)
        ]
      ]

  -- A store that was opened is settled: opening it again succeeds and changes nothing, whether the
  -- first time wrote the version of a new store, migrated an old one, or found this version. What the
  -- database has stored under a key is read back.
  pub ensure_schema_again :
      IsStoring d
      → (db : Db) → (ensure_schema d db).1 ≡ ok tt
      → ensure_schema d (ensure_schema d db).0 ≡ ((ensure_schema d db).0, ok tt)
  unfolding ensure_schema
  ensure_schema_again storing db done = elim (Result-cases (d.get db key_meta_schema)) [
    | inr (e, failed) ↦
        opens_as db (db, err e) (rw (ensure_schema, failed) refl) (refused db e) done
    | inl (found, read) ↦ elim (Option-cases found) [
      | inl absent ↦
          opens_as db (d.put db key_meta_schema (to_be_bytes 4 schema_version))
            (rw (ensure_schema, read, absent) refl) (put-IsSettled storing db) done
      | inr (bytes, there) ↦
          let stored = read ∙ ap ok there in
          elim (Bool-cases (ltb (length bytes) 4)) [
            | inl short ↦
                opens_as db (db, err (other "invalid schema version bytes"))
                  (rw (ensure_schema, stored, short) refl) (refused db _) done
            | inr long ↦ ensure_schema-versioned storing db bytes stored long done
          ]
    ]
  ]
