-- ===== src/Ring/Examples.antt =====
-- Lists through concrete nodes: a head at 100 and nodes at 8, 16 and 24.
use tomat_os.Base.{refl, [], ◌∷◌, arith, has, distinct, without}
use tomat_os.Ring.{Links, list_init, list_add, list_add_tail, list_del}
use tomat_os.Ring.Linked.{IsList}
use tomat_os.Ring.Insert.{list_init-IsList, list_add-IsList, list_add_tail-IsList}
use tomat_os.Ring.Delete.{list_del-IsList}

abbrev empty : Links
empty = list_init 200 (list_init 100 (record { next = λ a. 0; prev = λ a. 0 }))

abbrev both : Links
both = list_add_tail 100 16 (list_add 100 8 empty)

list_init-IsList_example : IsList empty 200 []
list_init-IsList_example =
    list_init-IsList 200 (list_init 100 (record { next = λ a. 0; prev = λ a. 0 }))

empty-IsList : IsList empty 100 []
unfolding list_init has distinct
empty-IsList = record { linked = (refl, refl); nodup = refl; apart = refl }

list_add-IsList_example : IsList (list_add 100 8 empty) 100 (8 ∷ [])
unfolding has
list_add-IsList_example = list_add-IsList empty 100 8 [] empty-IsList (λ e. omega arith) refl

one-IsList : IsList (list_add 100 8 empty) 100 (8 ∷ [])
unfolding has
one-IsList = list_add-IsList empty 100 8 [] empty-IsList (λ e. omega arith) refl

both-IsList : IsList both 100 (8 ∷ 16 ∷ [])
unfolding has
both-IsList =
    list_add_tail-IsList (list_add 100 8 empty) 100 16 (8 ∷ []) one-IsList (λ e. omega arith) refl

list_del-IsList_example : IsList (list_del 8 both) 100 (without 8 (8 ∷ 16 ∷ []))
unfolding has
list_del-IsList_example = list_del-IsList both 100 8 (8 ∷ 16 ∷ []) both-IsList refl
