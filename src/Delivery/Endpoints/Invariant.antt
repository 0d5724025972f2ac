-- ===== src/Delivery/Endpoints/Invariant.antt =====
-- The invariant of the stored endpoints of server/internal/delivery, and that the endpoint operations
-- keep it, whichever of their calls fail.
use beecon.Base.{
  ℕ, ◌≤◌, ◌<◌, ◌≡◌, refl, String, Option, none, some, List, arith, count, All, length, All-filter,
  ap,
}
use beecon.Base.Keyed
use beecon.Base.Effects.{ok, Exec, pure, ◌>>=◌, ◌>>◌}
use beecon.Base.Effects.Keeps.{
  Keeps, Keeps-check, Keeps-pure, Keeps-bind, Keeps-bind_ok, keeps_rules, Leads, Leads-bind_after,
  Leads-bind_before, Leads-guard, Leads-pre,
}
use beecon.Delivery.Types.{Endpoint, enabled, disabled}
use beecon.Delivery.Memory
use beecon.Delivery.Memory.{endpoint_key}
use beecon.Delivery.Memory.Lookups.{
  Holds, of_org, find_endpoint-Holds, find_endpoint_by_id-Holds, find_endpoint-none,
  length-list_endpoints,
}
use beecon.Delivery.Ports.{Facade, World, save_endpoint, list_endpoints}
use beecon.Delivery.Ports.Frames.{
  OnEndpoints, Looks, read-Endpoints, ask-Endpoints, endpoint_frames, save_endpoint-Endpoints,
  delete_endpoint-Endpoints, find_endpoint-Looks, find_endpoint_by_id-Looks, list_endpoints-Looks,
  save_endpoint-Leads,
}
use beecon.Delivery.Endpoints.{
  update_endpoint_url, create_endpoint_row, set_endpoint_of, set_endpoint, create_endpoint,
  change_endpoint, update_endpoint, delete_endpoint, enable_endpoint, update_endpoint_result_from,
  disable_endpoint,
}

-- An endpoint that still takes events has failed less often in a row than the threshold.
abbrev pub IsHealthy : ℕ → Endpoint → Type 0
IsHealthy threshold e = e.status ≡ enabled → e.consecutive_failures < threshold

module _ (threshold cap : ℕ) where
  pub record EndpointsOk (es : List Endpoint) : Type 0 where
    pub distinct : Keyed.Distinct endpoint_key es
    pub healthy : All (IsHealthy threshold) es
    pub capped : (org : ℕ) → count (of_org org) es ≤ cap

  -- Beside that, an endpoint with the id and the organization of `e` is stored.
  pub record With (e : Endpoint) (es : List Endpoint) : Type 0 where
    pub all_ok : EndpointsOk es
    pub stored : (x : Endpoint) × (Keyed.find endpoint_key e.id es ≡ some x) × (x.org_id ≡ e.org_id)

  pub put_same-EndpointsOk :
      (e e' : Endpoint) (es : List Endpoint)
      → e'.id ≡ e.id
      → e'.org_id ≡ e.org_id
      → IsHealthy threshold e'
      → With e es
      → With e (Keyed.put endpoint_key e' es)
  put_same-EndpointsOk e e' es i o h w = record {
    all_ok = record {
      distinct = Keyed.put-Distinct endpoint_key e' es w.all_ok.distinct;
      healthy = Keyed.put-All endpoint_key (IsHealthy threshold) e' es h w.all_ok.healthy;
      capped =
          let (x, found, org_x) = w.stored in
          λ org. omega (
            arith,
            Keyed.count-put_same endpoint_key (of_org org) e' x es (rw i found) (rw (o, org_x)),
            w.all_ok.capped org,
          );
    };
    stored = (e', ground (arith, Keyed.find-put endpoint_key e.id e' es), o);
  }

  put_new-EndpointsOk :
      (e : Endpoint) (es : List Endpoint)
      → IsHealthy threshold e
      → count (of_org e.org_id) es < cap
      → EndpointsOk es
      → EndpointsOk (Keyed.put endpoint_key e es)
  put_new-EndpointsOk e es h c w = record {
    distinct = Keyed.put-Distinct endpoint_key e es w.distinct;
    healthy = Keyed.put-All endpoint_key (IsHealthy threshold) e es h w.healthy;
    capped = λ org. ground (
      arith,
      Keyed.count-put-le endpoint_key (of_org org) e es,
      w.capped org,
      λ (same : e.org_id ≡ org). ap (λ (o : ℕ). count (of_org o) es) same,
    );
  }

  remove-EndpointsOk :
      (id : ℕ) (es : List Endpoint) → EndpointsOk es → EndpointsOk (Keyed.remove endpoint_key id es)
  unfolding Keyed.remove
  remove-EndpointsOk id es w = record {
    distinct = Keyed.filter-Distinct endpoint_key _ es w.distinct;
    healthy = All-filter (IsHealthy threshold) _ es w.healthy;
    capped =
        λ org. omega (arith, Keyed.count-remove-le endpoint_key (of_org org) id es, w.capped org);
  }

  -- What holds behind a lookup that has found an endpoint.
  pub record Found (org : ℕ) (e : Endpoint) (w : World) : Type 0 where
    pub healthy : IsHealthy threshold e
    pub with_it : OnEndpoints (With e) w
    pub owner : e.org_id ≡ org

  Holds-Found :
      (org : ℕ) (e : Endpoint) (w : World)
      → OnEndpoints EndpointsOk w
      → Holds org w.repo.endpoints e
      → Found org e w
  Holds-Found org e w h k = record {
    healthy = Keyed.find-All endpoint_key (IsHealthy threshold) e.id _ e h.holds.healthy k.0;
    with_it = record { holds = record { all_ok = h.holds; stored = (e, k.0, refl) } };
    owner = k.1;
  }

  -- A lookup behind which `Found` holds, and what may follow it.
  pub then_Found :
      {B : Type 0} (org : ℕ) (m : Exec World (Option Endpoint))
      (g : Memory.Repository → Option Endpoint) (k : Option Endpoint → Exec World B)
      → Looks (Option Endpoint) m g
      → ((r : Memory.Repository) (e : Endpoint)
          → EndpointsOk r.endpoints
          → g r ≡ some e
          → Holds org r.endpoints e)
      → ((w : World)
          → OnEndpoints EndpointsOk w
          → g w.repo ≡ none
          → OnEndpoints EndpointsOk (k none w).1)
      → ((e : Endpoint) (w : World) → Found org e w → OnEndpoints EndpointsOk (k (some e) w).1)
      → Keeps (OnEndpoints EndpointsOk) (m >>= k)
  then_Found org m g k looks held absent present =
      Keeps-bind_ok m k (record { at = λ w h. record { holds = rw (looks.same_repo w) h.holds } })
        λ o w h e.
          cases o (m w).1 (record { holds = rw (looks.same_repo w) h.holds })
            (rw (looks.same_repo w) (looks.finds w o e))
    where
      cases :
          (o : Option Endpoint) (w : World)
          → OnEndpoints EndpointsOk w
          → g w.repo ≡ o
          → OnEndpoints EndpointsOk (k o w).1
      cases none w h e = absent w h e
      cases (some x) w h e = present x w (Holds-Found org x w h (held w.repo x h.holds e))

  module _ (f : Facade) where
    save_same :
        {A : Type 0} (e e' : Endpoint) (a : A)
        → e'.id ≡ e.id
        → e'.org_id ≡ e.org_id
        → IsHealthy threshold e'
        → Keeps (OnEndpoints (With e)) (save_endpoint f e' >> pure a)
    save_same e e' a i o h =
        Keeps-bind _ _ (save_endpoint-Endpoints f e' (λ es w. put_same-EndpointsOk e e' es i o h w))
          (λ _. Keeps-pure a)

    pub change_endpoint-EndpointsOk :
        (org id : ℕ) (change : Endpoint → Endpoint)
        → ((e : Endpoint) → ((change e).id ≡ e.id) × ((change e).org_id ≡ e.org_id))
        → ((e : Endpoint) → IsHealthy threshold e → IsHealthy threshold (change e))
        → Keeps (OnEndpoints EndpointsOk) (change_endpoint f org id change)
    unfolding change_endpoint ◌>>=◌
    change_endpoint-EndpointsOk org id change same healthy =
        then_Found org _ (Memory.find_endpoint_by_id org id) _ (find_endpoint_by_id-Looks f org id)
          (λ r e _. find_endpoint_by_id-Holds org id r e) (λ w h _. h)
          λ e w found. record {
            holds =
                ((save_same e (change e) (update_endpoint_result_from (change e)) (same e).0
                    (same e).1 (healthy e found.healthy)).at
                  w found.with_it).holds.all_ok;
          }

    pub update_endpoint-EndpointsOk :
        (org id : ℕ) (url : String) (types : Option (List String))
        → Keeps (OnEndpoints EndpointsOk) (update_endpoint f org id url types)
    unfolding update_endpoint
    update_endpoint-EndpointsOk org id url types = Keeps-bind _ _ (Keeps-check _) λ _.
        Keeps-bind _ _ (Keeps-check _) λ _.
          change_endpoint-EndpointsOk org id (λ e. record e { url = url; event_types = types })
            (λ e. (refl, refl)) (λ e h. h)

    pub enable_endpoint-EndpointsOk :
        (org id : ℕ) → 0 < threshold → Keeps (OnEndpoints EndpointsOk) (enable_endpoint f org id)
    unfolding enable_endpoint
    enable_endpoint-EndpointsOk org id pos =
        change_endpoint-EndpointsOk org id
          (λ e. record e { status = enabled; consecutive_failures = 0 }) (λ e. (refl, refl))
          (λ e h _. pos)

    pub disable_endpoint-EndpointsOk :
        (org id : ℕ) → Keeps (OnEndpoints EndpointsOk) (disable_endpoint f org id)
    unfolding disable_endpoint
    disable_endpoint-EndpointsOk org id =
        change_endpoint-EndpointsOk org id (λ e. record e { status = disabled }) (λ e. (refl, refl))
          (λ e h p. ground arith)

    pub delete_endpoint-EndpointsOk :
        (org id : ℕ) → Keeps (OnEndpoints EndpointsOk) (delete_endpoint f org id)
    unfolding delete_endpoint
    delete_endpoint-EndpointsOk org id = Keeps-bind _ _ (search endpoint_frames) λ found.
        Keeps-bind _ _ (search keeps_rules)
          λ _. delete_endpoint-Endpoints f org id (λ es. remove-EndpointsOk id es)

    -- Room for one more endpoint of the organization.
    record HasRoom (org : ℕ) (es : List Endpoint) : Type 0 where
      all_ok : EndpointsOk es
      room : count (of_org org) es < cap

    create_endpoint_row-EndpointsOk :
        (org : ℕ) (url : String) (types : Option (List String))
        → 0 < threshold
        → Leads
            (OnEndpoints (HasRoom org))
            (OnEndpoints EndpointsOk)
            (create_endpoint_row f org url types)
    unfolding create_endpoint_row
    create_endpoint_row-EndpointsOk org url types pos =
        Leads-bind_after _ _ weaker (read-Endpoints _) λ id.
          Leads-bind_after _ _ weaker (read-Endpoints _) λ created_at.
            Leads-bind_after _ _ weaker (ask-Endpoints _) λ issued.
              Leads-bind_before _ _
                (save_endpoint-Leads f _ (λ es h. h.all_ok)
                  λ es h. put_new-EndpointsOk _ es (λ _. pos) h.room h.all_ok)
                (λ _. Keeps-pure _)
      where
        weaker : (w : World) → OnEndpoints (HasRoom org) w → OnEndpoints EndpointsOk w
        weaker w h = record { holds = h.holds.all_ok }

    update_endpoint_url-EndpointsOk :
        (org : ℕ) (e : Endpoint) (url : String) (w : World)
        → Found org e w
        → OnEndpoints EndpointsOk (update_endpoint_url f e url w).1
    unfolding update_endpoint_url
    update_endpoint_url-EndpointsOk org e url w found = record {
      holds =
          ((save_same e (record e { url = url }) _ refl refl found.healthy).at w
            found.with_it).holds.all_ok;
    }

    pub set_endpoint-EndpointsOk :
        (org : ℕ) (url : String)
        → 0 < threshold
        → 0 < cap
        → Keeps (OnEndpoints EndpointsOk) (set_endpoint f org url)
    unfolding set_endpoint set_endpoint_of
    set_endpoint-EndpointsOk org url pos room = Keeps-bind _ _ (Keeps-check _) λ _.
        then_Found org _ (Memory.find_endpoint org) _ (find_endpoint-Looks f org)
          (λ r e h. find_endpoint-Holds org r e h.distinct)
          (λ w h e.
            (Leads-bind_before _ _ (create_endpoint_row-EndpointsOk org url none pos)
                (λ _. Keeps-pure _)).at
              w
              (record {
                holds = record {
                  all_ok = h.holds;
                  room = omega (arith, find_endpoint-none org w.repo e);
                };
              }))
          λ e w found. update_endpoint_url-EndpointsOk org e url w found

    -- The endpoints of the organization are as many as the list that was read.
    record Counted (org n : ℕ) (es : List Endpoint) : Type 0 where
      all_ok : EndpointsOk es
      counted : count (of_org org) es ≡ n

    counted :
        (org : ℕ) (existing : List Endpoint) (w : World)
        → OnEndpoints EndpointsOk w
        → (list_endpoints f org w).0 ≡ ok existing
        → OnEndpoints (Counted org (length existing)) (list_endpoints f org w).1
    counted org existing w h e =
        let looks = list_endpoints-Looks f org in
        record {
          holds = rw (looks.same_repo w) (record {
            all_ok = h.holds;
            counted =
                ground
                  (arith, ap length (looks.finds w existing e), length-list_endpoints org w.repo);
          });
        }

    pub create_endpoint-EndpointsOk :
        (org : ℕ) (url : String) (types : Option (List String))
        → 0 < threshold
        → f.endpoint_cap ≡ cap
        → Keeps (OnEndpoints EndpointsOk) (create_endpoint f org url types)
    unfolding create_endpoint
    create_endpoint-EndpointsOk org url types pos same = Keeps-bind _ _ (Keeps-check _) λ _.
        Keeps-bind _ _ (Keeps-check _) λ _.
          Keeps-bind_ok _ _ (search endpoint_frames) λ existing w h e.
            (Leads-guard {P = OnEndpoints (Counted org (length existing))} _ _ _
                (λ w' c. record { holds = c.holds.all_ok })
                λ free.
                  Leads-bind_before _ _
                    (Leads-pre _
                      (λ w' c. record {
                        holds = record {
                          all_ok = c.holds.all_ok;
                          room = ground (arith, c.holds.counted);
                        };
                      })
                      (create_endpoint_row-EndpointsOk org url types pos))
                    (λ _. Keeps-pure _)).at
              _ (counted org existing w h e)
