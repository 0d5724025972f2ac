-- ===== src/Connections/Invariant/Requests.antt =====
-- The requests of server/internal/connections/facade.go keep such an invariant.
use beecon.Base.{ℕ, ◌≡◌, refl, String, Bool, true, false, not, arith}
use beecon.Base.Effects.Ports.{read}
use beecon.Base.Effects.Gives.{
  Gives, Preserves, On, Anything, Gives-pure, Gives-or_fail, Gives-if, Gives-forget, Gives-check,
  Gives-bind, Gives-then, Gives-query, Preserves-read, Preserves-ask, Preserves-update,
}
use beecon.Connections.Types.{Connection, Status, new_connection}
use beecon.Connections.Ports.{Facade, Outside}
use beecon.Connections.Facade.{
  ListParams, check_redirect_uri, initiate, get, list, disable_connection,
  notify_dependents_of_deletion, delete, reconnect, count_by_status,
}
use beecon.Connections.Invariant.{Steps}
use beecon.Connections.Invariant.Calls.{
  some-IfFound, find_by_id-Gives, update_connection-Preserves, elsewhere,
}

module _ (f : Facade) (E : Outside → Type 0) (P : Connection → Type 0) (st : Steps f E P) where
  check_redirect_uri-Preserves :
      (org : ℕ) (uri : String) → Preserves (On E) (check_redirect_uri f org uri)
  unfolding check_redirect_uri
  check_redirect_uri-Preserves org uri =
      Gives-then _ _ (Preserves-ask _) λ organization. Gives-forget _ _ (Gives-check _ _)

  pub get-Gives : (org id : ℕ) → Gives (On E) P (get f org id)
  unfolding get
  get-Gives org id =
      Gives-bind _ _ (find_by_id-Gives f E P st org id)
        λ stored h. Gives-or_fail P _ stored (λ c e. some-IfFound P stored c h e)

  pub initiate-Preserves :
      (org user integration : ℕ) (uri : String)
      → Preserves (On E) (initiate f org user integration uri)
  unfolding initiate read
  initiate-Preserves org user integration uri =
      Gives-then _ _ (check_redirect_uri-Preserves org uri) λ _.
        Gives-then _ _ (Preserves-ask _) λ _. Gives-then _ _ (Preserves-ask _) λ visible.
          Gives-bind _ _ (created-Gives) λ id fresh. Gives-then _ _ (Preserves-read _) λ token.
            Gives-then _ _ (Preserves-read _) λ now.
              Gives-then _ _
                (Preserves-update f.fault _
                  (λ o h. st.saved _ o (fresh visible.provider_slug token now) h))
                λ _. Gives-pure Anything _ tt
    where
      created-Gives :
          Gives
            (On E)
            (λ id.
              (slug token : String) (now : ℕ)
              → P (new_connection id org user integration slug uri token now))
            (read f.new_id)
      created-Gives = record {
        at = λ w h. (
          record { holds = h.holds },
          λ slug token now. st.kept.created w.tick org user integration slug uri token now,
        );
      }

  pub disable_connection-Preserves : (org id : ℕ) → Preserves (On E) (disable_connection f org id)
  unfolding disable_connection
  disable_connection-Preserves org id = Gives-bind _ _ (get-Gives org id) λ c p.
      Gives-then _ _ (update_connection-Preserves f E P st _ (st.kept.disabled c p))
        λ _. Gives-pure Anything _ tt

  pub deletion-Preserves : (org id : ℕ) → Preserves (On E) (delete f org id)
  unfolding delete notify_dependents_of_deletion
  deletion-Preserves org id = Gives-bind _ _ (get-Gives org id) λ c p.
      Gives-then _ _ (Preserves-update f.fault _ (λ o h. st.deleted org id o h)) λ _.
        Gives-if Anything f.has_dependents _ _ (λ _. elsewhere f E P st _ (λ o. refl))
          (λ _. Gives-pure Anything _ tt)

  pub reconnect-Preserves : (org id : ℕ) (uri : String) → Preserves (On E) (reconnect f org id uri)
  unfolding reconnect
  reconnect-Preserves org id uri = Gives-then _ _ (check_redirect_uri-Preserves org uri) λ _.
      Gives-bind _ _ (get-Gives org id) λ c p. Gives-bind _ _ (Gives-check _ _) λ _ may.
        Gives-then _ _ (Preserves-read _) λ token. Gives-then _ _ (Preserves-read _) λ now.
          Gives-then _ _
            (update_connection-Preserves f E P st _
              (st.kept.prepared token uri _ c (not_false may) p))
            λ _. Gives-pure Anything _ tt
    where
      not_false : {b : Bool} → not b ≡ false → b ≡ true
      not_false {b} h = ground arith

  pub list-Preserves : (org : ℕ) (params : ListParams) → Preserves (On E) (list f org params)
  unfolding list
  list-Preserves org params =
      Gives-then _ _ (Gives-query Anything f.fault _ (λ o h. tt)) λ items. Gives-pure Anything _ tt

  pub count_by_status-Preserves : (status : Status) → Preserves (On E) (count_by_status f status)
  unfolding count_by_status
  count_by_status-Preserves status = Gives-query Anything f.fault _ (λ o h. tt)
