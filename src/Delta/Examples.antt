-- ===== src/Delta/Examples.antt =====
-- Deltas at concrete states: tests, and the theorems where their hypotheses hold.
use allonet.Common.{◌⊎◌, Option, ℕ, ◌+◌, ◌<◌, ◌≤◌, ◌≡◌, refl, [], ◌∷◌, some, none, arith, get_elem?}
use allonet.Common.Int.{pos, negsuc}
use allonet.Common.Outcome.{ok, wild}
use allonet.Delta.{
  Documents, History, Delta, Diffcache, get, slot, insert, compute, apply, merge_delta, put,
}
use allonet.Delta.Window.{insert_all, get-insert_all}
use allonet.Delta.Cache.{fresh, unused, newer, asked, Used-fresh}
use allonet.Delta.RoundTrip.{apply-fresh, apply-outcome}

-- Documents that are a revision and one number; a patch holds what the new document has.
record Sheet : Type 0 where
  number : ℕ
  content : ℕ

abbrev sheet : ℕ → ℕ → Sheet
sheet n c = record { number = n; content = c }

abbrev sheets : Documents Sheet
sheets = record {
  revision = λ s. some (pos s.number);
  generate = λ old new. some new;
  merge = λ old patch. patch;
}

abbrev empty : History Sheet
empty = record { slots = λ i. none; latest_revision = pos 0 }

abbrev after_five : History Sheet
after_five = record { slots = put 5 (sheet 5 50) empty.slots; latest_revision = pos 5 }

abbrev after_six : History Sheet
after_six = record { slots = put 6 (sheet 6 60) after_five.slots; latest_revision = pos 6 }

abbrev delta_five_six : Delta Sheet
delta_five_six = merge_delta sheets (pos 5) (sheet 6 60)

abbrev no_cache : Diffcache Sheet
no_cache i = none

abbrev one_cached : Diffcache Sheet
one_cached = put 5 (record { from = pos 5; to = pos 6; json = delta_five_six }) no_cache

negative_revision : compute sheets after_six no_cache (negsuc 0) ≡ wild
unfolding compute
negative_revision = refl

get-insert_all_example :
    (h' : History Sheet) × (insert_all sheets empty (sheet 5 50 ∷ sheet 6 60 ∷ []) ≡ ok h')
    × ((i : ℕ)
        → i < 2
        → 2 ≤ i + 64
        → get h' (pos (5 + i)) ≡ ok (get_elem? (sheet 5 50 ∷ sheet 6 60 ∷ []) i))
get-insert_all_example =
    get-insert_all sheets empty 5 (sheet 5 50 ∷ sheet 6 60 ∷ []) (refl, (refl, tt))

inserts_six : insert sheets after_five (sheet 6 60) ≡ ok after_six
unfolding insert
inserts_six = refl

computes : compute sheets after_six no_cache (pos 5) ≡ ok (delta_five_six, one_cached)
unfolding compute
computes = refl

hits : compute sheets after_six one_cached (pos 5) ≡ ok (delta_five_six, one_cached)
unfolding compute
hits = refl

Used-fresh_example : fresh sheets after_six (pos 5) ≡ ok delta_five_six
Used-fresh_example =
    Used-fresh sheets after_six one_cached one_cached (pos 5) delta_five_six
      (asked after_six no_cache one_cached (pos 5) delta_five_six
        (newer after_five after_six no_cache (sheet 6 60) (unused after_five) inserts_six
          (omega arith))
        computes)
      hits

apply-fresh_example :
    (json : Delta Sheet) × (h' : History Sheet) × (fresh sheets after_six (pos 5) ≡ ok json)
    × (apply sheets after_five json ≡ ok (some (sheet 6 60), h'))
    × (get h' (pos 6) ≡ ok (some (sheet 6 60)))
    × (h'.latest_revision ≡ pos 6)
unfolding get slot
apply-fresh_example =
    apply-fresh sheets after_six after_five (sheet 6 60) (sheet 5 50) (sheet 6 60) 5 6 refl refl
      refl refl (λ x e r. ground arith) (λ x e. (pos x.number, refl)) refl refl

refuses : apply sheets after_six (merge_delta sheets (pos 4) (sheet 6 60)) ≡ ok (none, after_six)
unfolding apply
refuses = refl

accepts :
    apply sheets after_five (merge_delta sheets (pos 5) (sheet 6 60))
    ≡ ok (some (sheet 6 60), after_six)
unfolding apply
accepts = refl

apply-outcome_example :
    (◌≡◌ {A = Option Sheet} (some (sheet 6 60)) none × (after_six ≡ after_five))
    ⊎ (doc : Sheet) × (some (sheet 6 60) ≡ some doc) × (get after_six (pos 6) ≡ ok (some doc))
apply-outcome_example =
    apply-outcome sheets after_five after_six (merge_delta sheets (pos 5) (sheet 6 60))
      (some (sheet 6 60)) accepts
