-- ===== src/LinkList/Tests.antt =====
-- Runs of kernel/adt/list.h on a list at 10 with the items 20 and 30.
use osy.Common.{◌≡◌, refl, some, [], ◌∷◌, ◌==◌, if◌then◌else◌, Returns, arith}
use osy.LinkList.{Links, list_remove, list_rotate}
use osy.LinkList.Ring.{IsList}
use osy.LinkList.Insert.{SameOutside}
use osy.LinkList.Remove.{Removed, Detached, remove_lem, remove-Detached, rotate-cons}

abbrev pair : Links
pair = record {
  next = λ a. if a == 10 then 20 else if a == 20 then 30 else if a == 30 then 10 else 0;
  prev = λ a. if a == 10 then 30 else if a == 20 then 10 else if a == 30 then 20 else 0;
}

pair-IsList : IsList pair 10 (20 ∷ 30 ∷ [])
pair-IsList = record {
  chain = (refl, refl, (refl, refl, (refl, refl)));
  fresh = refl;
  distinct = (refl, (refl, tt));
  nonnull = omega arith;
  items = (omega arith, (omega arith, tt));
}

remove_lem_example : Returns (λ _ t. Removed pair 10 30 (20 ∷ []) [] t) (list_remove 30 pair)
remove_lem_example = remove_lem pair 10 30 (20 ∷ []) [] pair-IsList

remove-Detached_example :
    Returns (λ _ t. Detached t 40 × SameOutside (40 ∷ []) pair t) (list_remove 40 pair)
remove-Detached_example = remove-Detached pair 40 (omega arith) (refl, refl)

rotate-cons_example :
    Returns
      (λ out t.
        (out ≡ some 20) × IsList t 10 (30 ∷ 20 ∷ []) × SameOutside (10 ∷ 20 ∷ 30 ∷ []) pair t)
      (list_rotate 10 pair)
rotate-cons_example = rotate-cons pair 10 20 (30 ∷ []) pair-IsList
