-- ===== src/OrderedMap/Refinement.antt =====
-- The ordered maps as an implementation of finite maps.
use egvm.Prelude.{
  ℕ, ◌≡◌, refl, sym, ap, ◌∙◌, Bool, true, false, Option, none, some, List, [], ◌∷◌, length, ◌==◌,
  arith, if◌then◌else◌,
}
use egvm.Outcome.{Outcome, ok, panic, from_ok, map_ok, empty_key_string}
use egvm.Bytes.{Bytes, equal_bytes}
use egvm.Tree.{TreeLib, found}
use egvm.Msgp.{MsgpLib}
use egvm.OrderedMap.{Kind, OrderedMap, new_ordered_map, clear, delete, get, set}
use egvm.OrderedMap.Lookup.{after_set, set_nonempty, get_laws}
use egvm.OrderedMap.Size.{MapCall, set_call, delete_call, clear_call, run}

-- A finite map, and what the calls do to it: `none` is a refused call.
abbrev pub Table : Type 0 → Type 0
Table V = Bytes → Option V

abbrev pub no_entries : {V : Type 0} → Table V
no_entries j = none

abbrev pub with_entry : {V : Type 0} → Table V → Bytes → Option V → Table V
with_entry f k r j = if equal_bytes k j then r else f j

unfoldable pub run_table : {V : Type 0} → Table V → List (MapCall V) → Option (Table V)
run_table f [] = some f
run_table f (set_call [] v ∷ calls) = none
run_table f (set_call (c ∷ k) v ∷ calls) = run_table (with_entry f (c ∷ k) (some v)) calls
run_table f (delete_call k ∷ calls) = run_table (with_entry f k none) calls
run_table f (clear_call ∷ calls) = run_table no_entries calls

module _ {V : Type 0} (t : TreeLib V) (m : MsgpLib) (kind : Kind V) where
  -- Get finds in the ordered map what the table has.
  abbrev pub Shows : OrderedMap t → Table V → Type 0
  Shows o f = (j : Bytes) → get t o j ≡ found t.zero_value (f j)

  pub data Refines : Outcome (OrderedMap t) → Option (Table V) → Type 0 where
    both_return : {o : OrderedMap t} {f : Table V} → Shows o f → Refines (ok o) (some f)
    both_refuse : Refines (panic empty_key_string) none

  found-if :
      (b : Bool) (r s : Option V)
      → (if b then found t.zero_value r else found t.zero_value s)
        ≡ found t.zero_value (if b then r else s)
  found-if true r s = refl
  found-if false r s = refl

  set_empty : (o : OrderedMap t) (v : V) → set t m kind o [] v ≡ panic empty_key_string
  unfolding set
  set_empty o v = refl

  set-Shows :
      (o : OrderedMap t) (f : Table V) (c : ℕ) (k : Bytes) (v : V)
      → Shows o f
      → Shows (after_set t m kind o (c ∷ k) v) (with_entry f (c ∷ k) (some v))
  set-Shows o f c k v shows j =
      let key = c ∷ k in
      let sized : (length key == 0) ≡ false = ground arith in
      let law =
        ap (map_ok (λ o'. get t o' j)) (sym (set_nonempty t m kind o key v sized))
        ∙ (get_laws t m kind o key j v).0 in
      let plain : ok (get t (after_set t m kind o key v) j)
          ≡ ok (if equal_bytes key j then (v, true) else get t o j) =
        law ∙ rw sized refl in
      ap (from_ok (t.zero_value, false)) plain
      ∙ ap (λ r. if equal_bytes key j then (v, true) else r) (shows j)
      ∙ found-if (equal_bytes key j) (some v) (f j)

  delete-Shows :
      (o : OrderedMap t) (f : Table V) (k : Bytes) (v : V)
      → Shows o f
      → Shows (delete t o k) (with_entry f k none)
  delete-Shows o f k v shows j =
      (get_laws t m kind o k j v).1
      ∙ ap (λ r. if equal_bytes k j then (t.zero_value, false) else r) (shows j)
      ∙ found-if (equal_bytes k j) none (f j)

  run-Refines :
      (o : OrderedMap t) (f : Table V) (calls : List (MapCall V))
      → Shows o f
      → Refines (run t m kind o calls) (run_table f calls)
  unfolding run run_table
  run-Refines o f [] shows = both_return shows
  run-Refines o f (set_call [] v ∷ calls) shows = rw (set_empty o v) both_refuse
  run-Refines o f (set_call (c ∷ k) v ∷ calls) shows =
      rw (set_nonempty t m kind o (c ∷ k) v (ground arith)) (
        run-Refines (after_set t m kind o (c ∷ k) v) (with_entry f (c ∷ k) (some v)) calls
          (set-Shows o f c k v shows))
  run-Refines o f (delete_call k ∷ calls) shows =
      run-Refines (delete t o k) (with_entry f k none) calls (delete-Shows o f k t.zero_value shows)
  run-Refines o f (clear_call ∷ calls) shows =
      run-Refines (clear t o) no_entries calls (λ j. (get_laws t m kind o j j t.zero_value).3)

  -- An ordered map, from New on and for every sequence of Set, Delete and Clear, is the finite map
  -- that the same calls make: both refuse at the first Set of the empty key, and where there is
  -- none both return, and then Get finds under every key what the finite map has.
  pub new-Refines :
      (calls : List (MapCall V))
      → Refines (run t m kind (new_ordered_map t) calls) (run_table no_entries calls)
  new-Refines calls =
      run-Refines (new_ordered_map t) no_entries calls
        (λ j. (get_laws t m kind (new_ordered_map t) j j t.zero_value).2)
