-- ===== src/Samples/Containers.antt =====
-- src/qsort.c, src/search_tree.c and src/search_hash.c at small inputs.
use mathlib.Core.List.{Perm}
use vlibc.Base.{ℕ, ◌+◌, ◌*◌, ◌≡◌, refl, arith, true, List, [], ◌∷◌, none, some}
use vlibc.Base.Int.{sub_ℕ, is_positive, is_negative}
use vlibc.Sort.{qsort, bsearch}
use vlibc.Sort.Order.{Ascending, qsort-Ascending}
use vlibc.Sort.Search.{Found, IsSortedFor, bsearch-Found}
use vlibc.Tree.{Tree, null, node, tsearch, tfind, tdelete}
use vlibc.Tree.Ordered.{IsSearchTree}
use vlibc.Tree.Find.{tfind-find_equal, tfind-tsearch, find_equal, to_list, or_else}
use vlibc.Tree.Delete.{tfind-tdelete}
use vlibc.Hash.{Slots, Table, find, enter, hsearch, probe, hash_str, hash_loop, same_key, settle}
use vlibc.Hash.Dictionary.{hsearch-find_entered}
use vlibc.Samples.Orders.{sub_ℕ-IsComparison, sub_ℕ-IsOrder}

abbrev shuffled : List ℕ
shuffled = 3 ∷ 1 ∷ 2 ∷ []

qsort-Ascending_example :
    Ascending sub_ℕ (qsort sub_ℕ shuffled) × Perm (qsort sub_ℕ shuffled) shuffled
qsort-Ascending_example = qsort-Ascending sub_ℕ sub_ℕ-IsComparison shuffled

abbrev evens : ℕ → ℕ
evens i = 2 * i + 2

evens-IsSortedFor : IsSortedFor sub_ℕ 4 evens 3
unfolding is_positive is_negative
evens-IsSortedFor = record {
  below = λ i j lt fit h. ground arith;
  above = λ i j lt fit h. ground arith;
}

bsearch-Found_example : Found sub_ℕ 4 evens 0 3 (bsearch sub_ℕ 4 evens 3)
bsearch-Found_example = bsearch-Found sub_ℕ 4 evens 3 evens-IsSortedFor

-- 2 above 1 and 3.
abbrev three : Tree ℕ
three = node (node null 1 null) 2 (node null 3 null)

three-IsSearchTree : IsSearchTree sub_ℕ three
unfolding is_negative is_positive
three-IsSearchTree = ((tt, tt, tt, tt), (tt, refl, tt), (tt, refl, tt), (tt, tt, tt, tt))

tfind-find_equal_example : tfind sub_ℕ 3 three ≡ some 3
unfolding find_equal to_list is_negative is_positive
tfind-find_equal_example = tfind-find_equal sub_ℕ sub_ℕ-IsOrder 3 three three-IsSearchTree

tfind-tsearch_example :
    tfind sub_ℕ 4 (tsearch sub_ℕ true 4 three).1 ≡ or_else sub_ℕ (tfind sub_ℕ 4 three) (some 4)
unfolding or_else is_negative tfind is_positive
tfind-tsearch_example = tfind-tsearch sub_ℕ sub_ℕ-IsOrder 4 4 three

tfind-tdelete_example : tfind sub_ℕ 2 (tdelete sub_ℕ 2 three).1 ≡ none
unfolding is_negative is_positive
tfind-tdelete_example = tfind-tdelete sub_ℕ sub_ℕ-IsOrder 2 2 three three-IsSearchTree

-- "a" and "d" meet at the same slot of three.
abbrev key_a : List ℕ
key_a = 97 ∷ []

abbrev key_d : List ℕ
key_d = 100 ∷ []

abbrev empty_table : Table ℕ
empty_table = record { slots = some (none ∷ none ∷ none ∷ []); items = 0 }

abbrev slots_a : Slots ℕ
slots_a = none ∷ some (record { key = key_a; value = 1 }) ∷ none ∷ []

abbrev slots_ad : Slots ℕ
slots_ad =
    none ∷ some (record { key = key_a; value = 1 }) ∷ some (record { key = key_d; value = 2 }) ∷ []

enter_a :
    hsearch (some key_a) 1 enter empty_table ≡ (some 1, record { slots = some slots_a; items = 1 })
unfolding hsearch probe hash_str hash_loop same_key settle
enter_a = refl

hsearch-find_entered_example :
    hsearch (some key_a) 9 find (record { slots = some slots_a; items = 1 })
    ≡ (some 1, record { slots = some slots_a; items = 1 })
hsearch-find_entered_example =
    hsearch-find_entered key_a 1 9 (none ∷ none ∷ none ∷ []) 0 1
      (record { slots = some slots_a; items = 1 }) enter_a

found_a :
    hsearch (some key_a) 9 find (record { slots = some slots_a; items = 1 })
    ≡ (some 1, record { slots = some slots_a; items = 1 })
unfolding hsearch probe hash_str hash_loop same_key settle
found_a = refl
