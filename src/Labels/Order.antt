-- ===== src/Labels/Order.antt =====
-- The order of the containers: sorting does not depend on which others there are.
use ofelia.Common.{
  Bool, true, false, not, ◌&&◌, ◌≡◌, refl, ap, List, [], ◌∷◌, if◌then◌else◌, text_lt_cotrans,
  text_lt_asymm, arith,
}
use ofelia.Labels.{DockerContainerInfo, comes_first, place, sort_containers}

comes_first_cotrans :
    (b c d : DockerContainerInfo)
    → comes_first b c ≡ false
    → comes_first c d ≡ false
    → comes_first b d ≡ false
unfolding comes_first
comes_first_cotrans b c d h k = ground (arith, text_lt_cotrans b.name c.name d.name)

comes_first_asymm : (b c : DockerContainerInfo) → comes_first b c ≡ true → comes_first c b ≡ false
unfolding comes_first
comes_first_asymm b c h = ground (arith, text_lt_asymm b.name c.name)

-- The containers that the test keeps.
unfoldable pub only :
    (DockerContainerInfo → Bool) → List DockerContainerInfo → List DockerContainerInfo
only keep [] = []
only keep (c ∷ cs) = let rest = only keep cs in if keep c then c ∷ rest else rest

-- Whether none of the containers is to stand before `c`.
unfoldable none_before : DockerContainerInfo → List DockerContainerInfo → Bool
none_before c [] = true
none_before c (d ∷ cs) = not (comes_first d c) && none_before c cs

unfoldable is_ordered : List DockerContainerInfo → Bool
unfolding none_before
is_ordered [] = true
is_ordered (c ∷ cs) = none_before c cs && is_ordered cs

none_before_trans :
    (c d : DockerContainerInfo) (cs : List DockerContainerInfo)
    → comes_first d c ≡ false
    → none_before d cs ≡ true
    → none_before c cs ≡ true
unfolding none_before
none_before_trans c d [] h k = refl
none_before_trans c d (e ∷ cs) h k =
    ground (arith, none_before_trans c d cs h, comes_first_cotrans e d c)

none_before-place :
    (c d : DockerContainerInfo) (cs : List DockerContainerInfo)
    → comes_first d c ≡ false
    → none_before c cs ≡ true
    → none_before c (place d cs) ≡ true
unfolding none_before place
none_before-place c d [] h k = ground arith
none_before-place c d (e ∷ cs) h k = ground (arith, none_before-place c d cs h)

is_ordered-place :
    (c : DockerContainerInfo) (cs : List DockerContainerInfo)
    → is_ordered cs ≡ true
    → is_ordered (place c cs) ≡ true
unfolding is_ordered place none_before
is_ordered-place c [] h = refl
is_ordered-place c (d ∷ cs) h = ground (
  arith,
  is_ordered-place c cs,
  none_before-place d c cs,
  comes_first_asymm d c,
  none_before_trans c d cs,
)

is_ordered-sort : (cs : List DockerContainerInfo) → is_ordered (sort_containers cs) ≡ true
unfolding sort_containers is_ordered
is_ordered-sort [] = refl
is_ordered-sort (c ∷ cs) = is_ordered-place c (sort_containers cs) (is_ordered-sort cs)

place-first :
    (c : DockerContainerInfo) (cs : List DockerContainerInfo)
    → none_before c cs ≡ true
    → place c cs ≡ c ∷ cs
unfolding none_before place
place-first c [] h = refl
place-first c (d ∷ cs) h = ground arith

none_before-only :
    (keep : DockerContainerInfo → Bool) (c : DockerContainerInfo) (cs : List DockerContainerInfo)
    → none_before c cs ≡ true
    → none_before c (only keep cs) ≡ true
unfolding none_before only
none_before-only keep c [] h = refl
none_before-only keep c (d ∷ cs) h = ground (arith, none_before-only keep c cs)

only-place :
    (keep : DockerContainerInfo → Bool) (c : DockerContainerInfo) (cs : List DockerContainerInfo)
    → is_ordered cs ≡ true
    → only keep (place c cs) ≡ (if keep c then place c (only keep cs) else only keep cs)
unfolding only place is_ordered none_before
only-place keep c [] h = ground arith
only-place keep c (d ∷ cs) h = ground (
  arith,
  only-place keep c cs,
  place-first c (only keep (d ∷ cs)),
  none_before-only keep c (d ∷ cs),
  none_before_trans c d cs,
)

pub only-sort_containers :
    (keep : DockerContainerInfo → Bool) (cs : List DockerContainerInfo)
    → only keep (sort_containers cs) ≡ sort_containers (only keep cs)
unfolding only sort_containers
only-sort_containers keep [] = refl
only-sort_containers keep (c ∷ cs) = ground (
  arith,
  only-place keep c (sort_containers cs) (is_ordered-sort cs),
  only-sort_containers keep cs,
  ap (place c) (only-sort_containers keep cs),
)
