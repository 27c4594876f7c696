-- ===== src/Mempool/Invariant.antt =====
-- The invariant of the mempool, under any sequence of its operations.
use Prim.Native.String.{String}
use text.Mathlib.TextEquality.{eq_iff}
use platarium_core.Base.{
  ℕ, ◌≤◌, ◌<◌, ◌≡◌, refl, Bool, false, not, ◌||◌, List, [], ◌∷◌, ◌++◌, arith, length, All, filter,
  u64_mod, length-append, length-filter, count_by-le-length, All-imp, saturating_add, ◌&&◌,
  Bool-cases, inl, inr, ltb,
}
use platarium_core.Data.Ord.{◌==◌, string_eq}
use platarium_core.Data.Map
use platarium_core.Data.Map.{HashMap, insert, contains_key, IsMap, insert-IsMap, remove-IsMap}
use platarium_core.Data.Entries.{All-insert, All-remove}
use platarium_core.Transaction.{Transaction}
use platarium_core.Mempool.{
  Mempool, MempoolEntry, new, add_transaction, remove_transaction, remove_transactions, remove_all,
  clear, add_forced_inclusion, remove_forced_inclusion, holds, max_forced_inclusion_queue,
}

-- No hash is queued twice.
abbrev pub IsDistinct : List String → Type 0
IsDistinct [] = Unit
IsDistinct (h ∷ q) = (holds q h ≡ false) × IsDistinct q

-- An entry stands under its own hash, and has arrived before the next one.
abbrev pub EntryFits : ℕ → String × MempoolEntry → Type 0
EntryFits next e = (e.0 ≡ e.1.tx.hash) × (e.1.arrival_index ≤ next)

pub record IsValid (m : Mempool) : Type 0 where
  pub keyed : IsMap m.transactions
  pub entries : All (EntryFits m.next_arrival_index) m.transactions
  pub counter : m.next_arrival_index < u64_mod
  pub distinct : IsDistinct m.forced_inclusion
  pub queue : length m.forced_inclusion ≤ max_forced_inclusion_queue

pub EntryFits-mono :
    (n n' : ℕ) → n ≤ n' → (e : String × MempoolEntry) → EntryFits n e → EntryFits n' e
EntryFits-mono n n' h e f = (f.0, omega arith)

pub holds-append : (q : List String) (h x : String) → holds (q ++ x ∷ []) h ≡ (holds q h || x == h)
holds-append [] h x = ground arith
holds-append (y ∷ q) h x = ground (arith, holds-append q h x)

pub IsDistinct-append :
    (q : List String) (x : String) → holds q x ≡ false → IsDistinct q → IsDistinct (q ++ x ∷ [])
IsDistinct-append [] x h d = (refl, tt)
IsDistinct-append (y ∷ q) x h d =
    ground (arith, holds-append q y x, eq_iff x y, eq_iff y x, IsDistinct-append q x, d)

pub holds-filter :
    (p : String → Bool) (q : List String) (h : String)
    → holds q h ≡ false
    → holds (filter p q) h ≡ false
holds-filter p [] h d = refl
holds-filter p (y ∷ q) h d = ground (arith, holds-filter p q h)

pub IsDistinct-filter :
    (p : String → Bool) (q : List String) → IsDistinct q → IsDistinct (filter p q)
IsDistinct-filter p [] d = tt
IsDistinct-filter p (y ∷ q) d = ground (arith, holds-filter p q y d.0, IsDistinct-filter p q d.1)

add_transaction-IsValid :
    (m : Mempool) (tx : Transaction) → IsValid m → IsValid (add_transaction m tx).0
unfolding add_transaction
add_transaction-IsValid m tx v = elim (Bool-cases (contains_key m.transactions tx.hash)) [
  | inl known ↦ rw known v
  | inr fresh ↦ rw fresh (
      let next = saturating_add u64_mod m.next_arrival_index 1 in
      record {
        keyed = insert-IsMap m.transactions tx.hash _ v.keyed;
        entries =
            All-insert (EntryFits next) m.transactions tx.hash _ (refl, omega arith)
              (All-imp (EntryFits-mono m.next_arrival_index next (omega arith)) m.transactions
                v.entries);
        counter = omega arith;
        distinct = v.distinct;
        queue = v.queue;
      })
]

remove_transaction-IsValid :
    (m : Mempool) (h : String) → IsValid m → IsValid (remove_transaction m h).0
unfolding remove_transaction
remove_transaction-IsValid m h v = record {
  keyed = remove-IsMap m.transactions h v.keyed;
  entries = All-remove (EntryFits m.next_arrival_index) m.transactions h v.entries;
  counter = v.counter;
  distinct = v.distinct;
  queue = v.queue;
}

add_forced_inclusion-IsValid :
    (m : Mempool) (h : String) → IsValid m → IsValid (add_forced_inclusion m h)
unfolding add_forced_inclusion
add_forced_inclusion-IsValid m h v =
    elim (Bool-cases (
      ltb (length m.forced_inclusion) max_forced_inclusion_queue
      && not (holds m.forced_inclusion h))) [
        | inl t ↦ rw t (record {
          keyed = v.keyed;
          entries = v.entries;
          counter = v.counter;
          distinct = IsDistinct-append m.forced_inclusion h (ground (arith, t)) v.distinct;
          queue = ground (arith, t, length-append m.forced_inclusion (h ∷ []));
        })
        | inr f ↦ rw f v
      ]

remove_all-keeps :
    (n : ℕ) (t : HashMap String MempoolEntry) (hashes : List String)
    → IsMap t × All (EntryFits n) t
    → IsMap (remove_all t hashes) × All (EntryFits n) (remove_all t hashes)
remove_all-keeps n t [] v = v
remove_all-keeps n t (h ∷ hashes) v =
    remove_all-keeps n (Map.remove t h) hashes
      (remove-IsMap t h v.0, All-remove (EntryFits n) t h v.1)

remove_transactions-IsValid :
    (m : Mempool) (hashes : List String) → IsValid m → IsValid (remove_transactions m hashes)
unfolding remove_transactions
remove_transactions-IsValid m hashes v =
    let (keyed, entries) =
      remove_all-keeps m.next_arrival_index m.transactions hashes (v.keyed, v.entries) in
    record {
      keyed = keyed;
      entries = entries;
      counter = v.counter;
      distinct = v.distinct;
      queue = v.queue;
    }

remove_forced_inclusion-IsValid :
    (m : Mempool) (hashes : List String) → IsValid m → IsValid (remove_forced_inclusion m hashes)
unfolding remove_forced_inclusion
remove_forced_inclusion-IsValid m hashes v = record {
  keyed = v.keyed;
  entries = v.entries;
  counter = v.counter;
  distinct = IsDistinct-filter (λ h. not (holds hashes h)) m.forced_inclusion v.distinct;
  queue = omega (
    arith,
    length-filter (λ h. not (holds hashes h)) m.forced_inclusion,
    count_by-le-length (λ h. not (holds hashes h)) m.forced_inclusion,
    v.queue,
  );
}

-- The operations that change a mempool.
pub data Operation : Type 0 where
  add : Transaction → Operation
  remove_one : String → Operation
  remove_many : List String → Operation
  clear_all : Operation
  force : String → Operation
  unforce : List String → Operation

abbrev pub perform : Mempool → Operation → Mempool
perform m (add tx) = (add_transaction m tx).0
perform m (remove_one h) = (remove_transaction m h).0
perform m (remove_many hashes) = remove_transactions m hashes
perform m clear_all = clear m
perform m (force h) = add_forced_inclusion m h
perform m (unforce hashes) = remove_forced_inclusion m hashes

unfoldable pub perform_all : Mempool → List Operation → Mempool
perform_all m [] = m
perform_all m (op ∷ ops) = perform_all (perform m op) ops

perform-IsValid : (m : Mempool) (op : Operation) → IsValid m → IsValid (perform m op)
unfolding clear
perform-IsValid m (add tx) v = add_transaction-IsValid m tx v
perform-IsValid m (remove_one h) v = remove_transaction-IsValid m h v
perform-IsValid m (remove_many hashes) v = remove_transactions-IsValid m hashes v
perform-IsValid m clear_all v = record {
  keyed = tt;
  entries = tt;
  counter = v.counter;
  distinct = v.distinct;
  queue = v.queue;
}
perform-IsValid m (force h) v = add_forced_inclusion-IsValid m h v
perform-IsValid m (unforce hashes) v = remove_forced_inclusion-IsValid m hashes v

perform_all-keeps : (m : Mempool) (ops : List Operation) → IsValid m → IsValid (perform_all m ops)
unfolding perform_all
perform_all-keeps m [] v = v
perform_all-keeps m (op ∷ ops) v = perform_all-keeps (perform m op) ops (perform-IsValid m op v)

-- Whatever operations are performed on a new mempool, every entry stands under its own hash and
-- no hash twice, no entry has an arrival index above the next one, and the forced-inclusion queue
-- holds at most 256 hashes, none of them twice.
pub perform_all-IsValid : (ops : List Operation) → IsValid (perform_all new ops)
perform_all-IsValid ops = perform_all-keeps new ops (omega arith)
