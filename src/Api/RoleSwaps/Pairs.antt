-- ===== src/Api/RoleSwaps/Pairs.antt =====
-- Which responses the route compares by role.
use integrated_work_tll.Prelude.{
  String, ◌≡◌, refl, sym, ap, false, not, List, [], ◌∷◌, ◌++◌, map, lower, select, is_empty, All,
}
use integrated_work_tll.Models.{Floats, ScanResponse}
use integrated_work_tll.Collector.{has_role, build_pairs}
use integrated_work_tll.Collector.Reflexive.{IsResponse}
use integrated_work_tll.Collector.Pairs.{product_with, product, build_pairs-eq_product}
use integrated_work_tll.Api.RoleSwaps.{
  RoleSwap, is_admin, swap_of, swaps_with, swaps_of, group_swaps,
}

module _ (fl : Floats) (key : String × String) where
  map-append :
      (ps qs : List (ScanResponse × ScanResponse))
      → map (swap_of fl key) (ps ++ qs) ≡ map (swap_of fl key) ps ++ map (swap_of fl key) qs
  map-append [] qs = refl
  map-append (p ∷ ps) qs = ap (λ (l : List RoleSwap). swap_of fl key p ∷ l) (map-append ps qs)

  swaps_with-eq :
      (r : ScanResponse) (ss : List ScanResponse)
      → swaps_with fl key r ss ≡ map (swap_of fl key) (product_with r ss)
  swaps_with-eq r [] = refl
  swaps_with-eq r (s ∷ ss) =
      ap (λ (l : List RoleSwap). swap_of fl key (r, s) ∷ l) (swaps_with-eq r ss)

  swaps_of-eq :
      (rs ss : List ScanResponse) → swaps_of fl key rs ss ≡ map (swap_of fl key) (product rs ss)
  swaps_of-eq [] ss = refl
  swaps_of-eq (r ∷ rs) ss =
      rw (swaps_with-eq r ss, swaps_of-eq rs ss)
        (sym (map-append (product_with r ss) (product rs ss)))

  -- Where a response of an endpoint has the role admin, the route lists exactly the comparisons
  -- that the collector makes of these responses for the reference role admin, in its order.
  pub group_swaps-build_pairs :
      (responses : List ScanResponse)
      → All IsResponse responses
      → is_empty (select (has_role "admin") responses) ≡ false
      → group_swaps fl key responses ≡ map (swap_of fl key) (build_pairs "admin" responses)
  unfolding group_swaps lower
  group_swaps-build_pairs responses valid some_admin =
      rw (group_swaps, some_admin, build_pairs-eq_product "admin" responses valid some_admin)
        (swaps_of-eq (select is_admin responses) (select (λ r. not (is_admin r)) responses))
