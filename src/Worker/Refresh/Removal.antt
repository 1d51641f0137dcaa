-- ===== src/Worker/Refresh/Removal.antt =====
-- legacy/apps/worker/src/refresh.ts: a source that fails, in its fetch or in its ingestion, among others.
use content_gap.Prelude.{
  ℕ, false, List, [], ◌∷◌, ◌++◌, map, ◌≡◌, ◌≢◌, refl, ◌∙◌, ◌⊎◌, inl, inr, All,
}
use content_gap.Prelude.Text.{Text}
use content_gap.Shared.Results.{Failure, Result}
use content_gap.Database.Tables.{Source}
use content_gap.Worker.Refresh.{FetchResult, RefreshState, refresh_input, refresh_one, refresh_each}
use content_gap.Worker.Refresh.Laws.{is_fetched}
use content_gap.Worker.Refresh.Alike.{noteless, existing-noteless}
use content_gap.Worker.Refresh.Rounds.{
  SameBut, Throws, ResolvesTo, thrown-SameBut, unfetched-SameBut, round-Kept,
}

module _ (new_id : ℕ → Text) (digest : Text → Text) (now : ℕ) (fetch : Source → Result FetchResult)
    (message_of : Failure → Text) (project_id : Text) where
  abbrev one : Source → RefreshState → RefreshState
  one = refresh_one new_id digest now fetch message_of project_id

  abbrev each : List Source → RefreshState → RefreshState
  each = refresh_each new_id digest now fetch message_of project_id

  abbrev pub Elsewhere : Text → List Source → Source → Type 0
  Elsewhere k sources t =
      (j : Text) × (j ≢ k) × ResolvesTo new_id digest now fetch message_of project_id t sources j

  rest-SameBut :
      (k : Text) (post : List Source) (sources : List Source) (a b : RefreshState)
      → SameBut k a b
      → map noteless b.store.sources ≡ map noteless sources
      → All (Elsewhere k sources) post
      → SameBut k (each post a) (each post b)
  unfolding refresh_each
  rest-SameBut k [] sources a b same q h = same
  rest-SameBut k (t ∷ post) sources a b same q h =
      let (j, ne, to) = h.0 in
      let kept = round-Kept new_id digest now fetch message_of project_id k j t a b ne same (λ res.
        existing-noteless (refresh_input new_id digest now fetch message_of project_id t res)
          b.store.sources sources q
        ∙ to res) in
      rest-SameBut k post sources (one t a) (one t b) kept.same (kept.sources ∙ q) h.1

  each-append :
      (pre post : List Source) (st : RefreshState) → each (pre ++ post) st ≡ each post (each pre st)
  unfolding refresh_each
  each-append [] post st = refl
  each-append (s ∷ pre) post st = each-append pre post (one s st)

  -- A failed source does not invalidate the others. Let a source of the loop fail: its fetch throws or is
  -- not ok, or the ingestion of its content, into the source `k`, throws. If the content of each later
  -- source goes to a source of the store other than `k`, the loop leaves the same snapshots of all sources
  -- but `k`, the same sources but for the notes on them, and the same list of changes, as the loop
  -- without the failed source.
  pub refresh_each-isolated :
      (pre post : List Source) (s : Source) (k : Text) (st : RefreshState)
      → (is_fetched (fetch s) ≡ false)
        ⊎ Throws new_id digest now fetch message_of project_id s k (each pre st)
      → All (Elsewhere k (each pre st).store.sources) post
      → SameBut k
          (refresh_each new_id digest now fetch message_of project_id (pre ++ (s ∷ post)) st)
          (refresh_each new_id digest now fetch message_of project_id (pre ++ post) st)
  unfolding refresh_each
  refresh_each-isolated pre post s k st fails h =
      let mid = each pre st in
      let failed : SameBut k (one s mid) mid = elim fails [
        | inl e ↦ unfetched-SameBut new_id digest now fetch message_of project_id s k mid e
        | inr t ↦ thrown-SameBut new_id digest now fetch message_of project_id s k mid t
      ] in
      rw (each-append pre (s ∷ post) st, each-append pre post st)
        (rest-SameBut k post mid.store.sources (one s mid) mid failed refl h)
