-- ===== src/Tests/Filters.antt =====
-- A bare run of the filter, with a test that allows one of two numbers.
use kcp_marketplace.Base.{
  is_after, ℕ_discrete, ℕ, ◌≡◌, inl, inr, refl, true, some, List, [], ◌∷◌, if◌then◌else◌, Any,
}
use kcp_marketplace.Errors.{Error, external, ok, err}
use kcp_marketplace.Main.Filter.{
  indices, Schedule, filter_by, get_elem?, kept, complete_all, complete, finish,
}
use kcp_marketplace.Main.Filter.Exact.{Each, filter_by-IsGranted, filter_by_fails}
use kcp_marketplace.Tests.Lists.{in_turn}

abbrev two : List ℕ
two = 1 ∷ 2 ∷ []

abbrev two_calls : Schedule (Unit {0}) two
two_calls = in_turn tt two

filtered : filter_by (λ _ _ n. ok (is_after n 1)) two two_calls ≡ ok (2 ∷ [])
unfolding filter_by complete_all complete finish kept get_elem? indices ℕ_discrete
filtered = refl

filter_by-IsGranted_example :
    Each (λ n. Any (λ c. ok (is_after n 1) ≡ ok true) two_calls.calls) (2 ∷ [])
filter_by-IsGranted_example =
    filter_by-IsGranted (λ _ _ n. ok (is_after n 1)) two two_calls (2 ∷ []) filtered

one_fails :
    Any
      (λ c.
        (n : ℕ) × (e : Error) × (get_elem? two c.index ≡ some n)
        × ((if is_after n 1 then err (external "down") else ok true) ≡ err e))
      two_calls.calls
unfolding get_elem? indices
one_fails = inr (inl (2, external "down", refl, refl))

filter_by_fails_example :
    (first : Error) × (filter_by
        (λ _ _ n. if is_after n 1 then err (external "down") else ok true)
        two
        two_calls
      ≡ err first)
filter_by_fails_example =
    filter_by_fails (λ _ _ n. if is_after n 1 then err (external "down") else ok true) two two_calls
      one_fails
