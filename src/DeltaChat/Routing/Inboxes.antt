-- ===== src/DeltaChat/Routing/Inboxes.antt =====
-- The routes of channels/delta_chat_channel/dc_routing.py by inbox and by connector.
use delta_gateway_chat_woot.Base.{
  String, str_eq, eq_iff, eq_refl, false, Bool-cases, List, [], ◌∷◌, some, Option-cases, All, ◌≡◌,
  inl, inr, refl, sym, ap, ◌∙◌, arith,
}
use delta_gateway_chat_woot.Base.Dict
use delta_gateway_chat_woot.Base.Dict.{Dict}
use delta_gateway_chat_woot.Errors.{connector_not_found_error, ok, err}
use delta_gateway_chat_woot.DeltaChat.Routing.{
  AccountConfig, Route, route_of, configured, new_routing, connector_of_inbox,
  get_route_by_connector_id, get_route_by_inbox_id,
}

abbrev IsFresh : String → Dict AccountConfig → Type 0
IsFresh k d = All (λ e. str_eq k e.0 ≡ false) d

-- Every configuration stands under its connector, and no connector twice.
abbrev IsKeyed : Dict AccountConfig → Type 0
IsKeyed [] = Unit {0}
IsKeyed ((k, cfg) ∷ d) = (cfg.connector_id ≡ k) × IsFresh k d × IsKeyed d

put-IsFresh :
    (j k : String) (cfg : AccountConfig) (d : Dict AccountConfig)
    → str_eq j k ≡ false
    → IsFresh j d
    → IsFresh j (Dict.put k cfg d)
unfolding Dict.put
put-IsFresh j k cfg [] h f = (h, tt)
put-IsFresh j k cfg ((i, c) ∷ d) h (g, f) = elim (Bool-cases (str_eq i k)) [
  | inl same ↦ rw same (h, f)
  | inr other ↦ rw other (g, put-IsFresh j k cfg d h f)
]

put-IsKeyed :
    (cfg : AccountConfig) (d : Dict AccountConfig)
    → IsKeyed d
    → IsKeyed (Dict.put cfg.connector_id cfg d)
unfolding Dict.put
put-IsKeyed cfg [] h = (refl, tt, tt)
put-IsKeyed cfg ((i, c) ∷ d) (e, f, h) = elim (Bool-cases (str_eq i cfg.connector_id)) [
  | inl same ↦
      let is_same : i ≡ cfg.connector_id = ground (arith, eq_iff i cfg.connector_id) in
      rw same (refl, rw is_same at f, h)
  | inr other ↦ rw other (e, put-IsFresh i cfg.connector_id cfg d other f, put-IsKeyed cfg d h)
]

configured-IsKeyed :
    (cfgs : List AccountConfig) (d : Dict AccountConfig) → IsKeyed d → IsKeyed (configured cfgs d)
unfolding configured
configured-IsKeyed [] d h = h
configured-IsKeyed (cfg ∷ cfgs) d h = configured-IsKeyed cfgs _ (put-IsKeyed cfg d h)

-- What stands under the connector that the search for an inbox gives.
record IsServed (inbox_id k : String) (d : Dict AccountConfig) : Type 0 where
  cfg : AccountConfig
  is_there : Dict.get k d ≡ some cfg
  has_inbox : cfg.cw_inbox_id ≡ inbox_id
  has_connector : cfg.connector_id ≡ k

fresh-get :
    (j k : String) (d : Dict AccountConfig) (cfg : AccountConfig)
    → IsFresh j d
    → Dict.get k d ≡ some cfg
    → str_eq j k ≡ false
unfolding Dict.get
fresh-get j k [] cfg f h = cc h
fresh-get j k ((i, c) ∷ d) cfg (g, f) h = elim (Bool-cases (str_eq i k)) [
  | inl same ↦ let is_same : i ≡ k = ground (arith, eq_iff i k) in rw is_same at g
  | inr other ↦ fresh-get j k d cfg f (ground arith)
]

later :
    (inbox_id k j : String) (c : AccountConfig) (d : Dict AccountConfig)
    → IsFresh j d
    → IsServed inbox_id k d
    → IsServed inbox_id k ((j, c) ∷ d)
unfolding Dict.get
later inbox_id k j c d f s = record {
  cfg = s.cfg;
  is_there = rw (fresh-get j k d s.cfg f s.is_there) s.is_there;
  has_inbox = s.has_inbox;
  has_connector = s.has_connector;
}

served :
    (inbox_id k : String) (d : Dict AccountConfig)
    → IsKeyed d
    → connector_of_inbox inbox_id d ≡ some k
    → IsServed inbox_id k d
unfolding connector_of_inbox Dict.get
served inbox_id k [] h e = cc e
served inbox_id k ((j, c) ∷ d) (own, fresh, h) e =
    elim (Bool-cases (str_eq c.cw_inbox_id inbox_id)) [
      | inl same ↦
          let is_k : j ≡ k = ground arith in
          record {
            cfg = c;
            is_there = rw (sym is_k) (rw (eq_refl j) refl);
            has_inbox = ground (arith, eq_iff c.cw_inbox_id inbox_id);
            has_connector = own ∙ is_k;
          }
      | inr other ↦ later inbox_id k j c d fresh (served inbox_id k d h (ground arith))
    ]

-- The route of an inbox is one whose configuration has that inbox, and it is the route of its own
-- connector, whatever the configurations repeat.
pub get_route_by_inbox_id-route :
    (cfgs : List AccountConfig) (inbox_id : String) (route : Route)
    → get_route_by_inbox_id (new_routing cfgs) inbox_id ≡ ok route
    → (route.cw_inbox_id ≡ inbox_id)
      × (get_route_by_connector_id (new_routing cfgs) route.connector_id ≡ ok route)
unfolding get_route_by_inbox_id get_route_by_connector_id new_routing
get_route_by_inbox_id-route cfgs inbox_id route h =
    elim (Option-cases (connector_of_inbox inbox_id (configured cfgs []))) [
      | inl missing ↦
          let refused : err connector_not_found_error ≡ ok route =
            rw (missing, get_route_by_inbox_id) at h in
          (cc refused, cc refused)
      | inr (k, there) ↦
          let s = served inbox_id k (configured cfgs []) (configured-IsKeyed cfgs [] tt) there in
          let got : ok (route_of s.cfg) ≡ ok route =
            rw (s.is_there, get_route_by_connector_id) at
              (rw (there, get_route_by_inbox_id) at h) in
          let same : route_of s.cfg ≡ route = cc got in
          let by_connector : get_route_by_connector_id (new_routing cfgs) k ≡ ok (route_of s.cfg) =
            rw (s.is_there, get_route_by_connector_id) refl in
          (
            ap (λ r. r.cw_inbox_id) (sym same) ∙ s.has_inbox,
            rw (sym same)
                (ap (get_route_by_connector_id (new_routing cfgs)) s.has_connector ∙ by_connector),
          )
    ]
