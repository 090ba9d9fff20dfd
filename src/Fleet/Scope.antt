-- ===== src/Fleet/Scope.antt =====
-- Which nodes an administrator's batch reaches: `_select_nodes` and `fleet_apply` of
-- panel/routes_fleet.py.
use nexvary_panel.Base.{
  ℕ, ◌≡◌, ◌⊎◌, inl, inr, refl, String, ◌==◌, Bool, true, not, ◌&&◌, ◌||◌, none, some, List, [], ◌∷◌,
  eqb, ltb, leb, arith, Bool-cases, Option-cases, and-true, eq_iff,
}
use Prim.Native.String.{compare}
use Prim.Native.Nat.{Ordering}
use mathlib.Core.Path.{subst}
use nexvary_panel.Base.Lists.{All, length, select, any, all}
use nexvary_panel.Base.Text.{lower, strip, truthy}
use nexvary_panel.Base.Json.{Json, Fields, Items, Body, flag, get_or, text_of, dict_or_empty}
use nexvary_panel.Web.{Context}
use nexvary_panel.Fleet.Store.{Node, Db, plan_operation, is_fingerprint}
use nexvary_panel.Fleet.Nodes.{
  Probed, latest_probe, Selection, owned, by_name, insert_node, select_nodes, select_all,
  select_listed, select_ids, int_items, item_count, nat_ids, unique_ids, positive, admin_owner,
}
use nexvary_panel.Fleet.Outbound.{
  World, Order, Run, is_ready, first_blocked, send, send_all, order_for, answer_run, apply_to,
  fleet_apply,
}

module _ (P : Node → Type 0) where
  All-insert_node : (x : Node) (l : List Node) → P x → All P l → All P (insert_node x l)
  unfolding insert_node
  All-insert_node x [] p h = (p, tt)
  All-insert_node x (y ∷ l) p h =
      elim (compare y.name x.name)
        as (λ o.
          All P
            (elim o as (λ _. List Node) [ Ordering.gt ↦ x ∷ y ∷ l | _ ↦ y ∷ insert_node x l ])) [
              | Ordering.gt ↦ (p, h)
              | Ordering.lt ↦ (h.0, All-insert_node x l p h.1)
              | Ordering.eq ↦ (h.0, All-insert_node x l p h.1)
            ]

  All-by_name : (l : List Node) → All P l → All P (by_name l)
  unfolding by_name
  All-by_name [] h = tt
  All-by_name (x ∷ l) h = All-insert_node x (by_name l) h.0 (All-by_name l h.1)

All-selected :
    (P : Node → Type 0) (p : Node → Bool) (l : List Node)
    → All P l
    → All (λ n. P n × (p n ≡ true)) (select p l)
unfolding select
All-selected P p [] h = tt
All-selected P p (n ∷ l) h = elim (Bool-cases (p n)) [
  | inl hit ↦ rw hit ((h.0, hit), All-selected P p l h.1)
  | inr miss ↦ rw miss (All-selected P p l h.1)
]

ready_nodes :
    (w : World) (required : String) (db : Db) (l : List Node)
    → first_blocked w required db l ≡ none
    → All (λ n. is_ready w required db n ≡ true) l
unfolding first_blocked
ready_nodes w required db [] h = tt
ready_nodes w required db (n ∷ l) h = elim (Bool-cases (is_ready w required db n)) [
  | inl ready ↦ (ready, ready_nodes w required db l (rw ready at h))
  | inr blocked ↦ absurd (cc (rw blocked at h))
]

All-both : {A : Type 0} (P Q : A → Type 0) (l : List A) → All P l → All Q l → All (λ x. P x × Q x) l
All-both P Q [] p q = tt
All-both P Q (x ∷ l) p q = ((p.0, q.0), All-both P Q l p.1 q.1)

All-orders :
    (P : Node → Type 0) (Q : Order → Type 0) (w : World) (c : Context) (operation : String)
    (payload : Fields)
    → ((n : Node) → P n → Q (order_for w operation payload n))
    → (l : List Node) (db : Db) → All P l
    → All Q (send_all w c operation payload l db).orders
unfolding send_all
All-orders P Q w c operation payload go [] db h = tt
All-orders P Q w c operation payload go (n ∷ l) db h =
    elim (Option-cases (send w c operation payload n db)) [
      | inl clash ↦ rw (send_all, clash) tt
      | inr (s, sent) ↦
          rw (send_all, sent) (go n h.0, All-orders P Q w c operation payload go l s.1 h.1)
    ]

Selection-cases :
    (x : Selection)
    → ((l : List Node) × (x ≡ Selection.chosen l)) ⊎ ((e : String) × (x ≡ Selection.refused e))
Selection-cases (Selection.chosen l) = inl (l, refl)
Selection-cases (Selection.refused e) = inr (e, refl)

selected_both :
    (P : Node → Type 0) (p q : Node → Bool) (l : List Node)
    → All P l
    → All (λ n. P n × (p n ≡ true)) (select (λ n. p n && q n) l)
unfolding select
selected_both P p q [] h = tt
selected_both P p q (n ∷ l) h = elim (Bool-cases (p n && q n)) [
  | inl hit ↦ rw hit ((h.0, (and-true (p n) (q n) hit).0), selected_both P p q l h.1)
  | inr miss ↦ rw miss (selected_both P p q l h.1)
]

abbrev Owned : (Node → Type 0) → String → List Node → Type 0
Owned P owner l = All (λ n. P n × (owned owner n ≡ true)) l

rows-Owned :
    (P : Node → Type 0) (owner : String) (db : Db)
    → All P db.nodes
    → Owned P owner (by_name (select (owned owner) db.nodes))
rows-Owned P owner db h = All-by_name _ _ (All-selected P (owned owner) db.nodes h)

ids-Owned :
    (P : Node → Type 0) (owner : String) (ids : List ℕ) (db : Db) (l : List Node)
    → select_ids owner ids db ≡ Selection.chosen l
    → All P db.nodes
    → Owned P owner l
unfolding select_ids
ids-Owned P owner ids db l h k =
    let rows = by_name (select (λ n. owned owner n && any (eqb n.id) ids) db.nodes) in
    let all : Owned P owner rows = All-by_name _ _ (selected_both P (owned owner) _ db.nodes k) in
    elim (Bool-cases (eqb (length rows) (length ids))) [
      | inr other ↦ absurd (cc (rw (select_ids, other) at h))
      | inl same ↦
          let e : Selection.chosen rows ≡ Selection.chosen l = rw (select_ids, same) at h in
          let r : rows ≡ l = cc e in subst (Owned P owner) r all
    ]

listed-Owned :
    (P : Node → Type 0) (owner : String) (items : Items) (db : Db) (l : List Node)
    → select_listed owner items db ≡ Selection.chosen l
    → All P db.nodes
    → Owned P owner l
unfolding select_listed
listed-Owned P owner items db l h k =
    elim (Bool-cases (leb 1 (item_count items) && leb (item_count items) 25)) [
      | inr bad ↦ absurd (cc (rw bad at h))
      | inl sized ↦ elim (Option-cases (int_items items)) [
        | inl bad ↦ absurd (cc (rw (sized, bad) at h))
        | inr (ids, read) ↦
            elim (Bool-cases (not (all positive ids) || not (unique_ids (nat_ids ids)))) [
              | inl bad ↦ absurd (cc (rw (sized, read, bad) at h))
              | inr good ↦ ids-Owned P owner (nat_ids ids) db l (rw (sized, read, good) at h) k
            ]
      ]
    ]

every-Owned :
    (P : Node → Type 0) (owner : String) (db : Db) (l : List Node)
    → select_all owner db ≡ Selection.chosen l
    → All P db.nodes
    → Owned P owner l
unfolding select_all
every-Owned P owner db l h k =
    let rows = by_name (select (owned owner) db.nodes) in
    elim (Bool-cases (ltb 25 (length rows))) [
      | inl many ↦ absurd (cc (rw (select_all, many) at h))
      | inr few ↦
          let e : Selection.chosen rows ≡ Selection.chosen l = rw (select_all, few) at h in
          let r : rows ≡ l = cc e in subst (Owned P owner) r (rows-Owned P owner db k)
    ]

nodes-Owned :
    (P : Node → Type 0) (owner : String) (raw : Json) (db : Db) (l : List Node)
    → select_nodes owner raw db ≡ Selection.chosen l
    → All P db.nodes
    → Owned P owner l
unfolding select_nodes
nodes-Owned P owner Json.null db l h k = every-Owned P owner db l h k
nodes-Owned P owner (Json.list s items) db l h k = listed-Owned P owner items db l h k
nodes-Owned P owner (Json.bool b) db l h k = absurd (cc)
nodes-Owned P owner (Json.int n) db l h k = absurd (cc)
nodes-Owned P owner (Json.number s t n) db l h k = absurd (cc)
nodes-Owned P owner (Json.str s) db l h k = absurd (cc)
nodes-Owned P owner (Json.dict s d) db l h k = absurd (cc)

-- an order to a node of which `P` holds, the administrator's and enabled, that its latest probe found
-- online and capable of the operation, with the node's own endpoint and credential
abbrev pub IsOrder : (Node → Type 0) → World → Context → Db → Order → Type 0
IsOrder P w c db o =
    (n : Node) × (required : String) × P n
    × (plan_operation o.operation ≡ some required)
    × (n.owner ≡ admin_owner c)
    × (n.enabled ≡ true)
    × ((latest : Probed) × (latest_probe w.rounded n.id db ≡ some latest)
        × (latest.status ≡ "online")
        × (flag required latest.capabilities ≡ true))
    × (truthy n.credential_ref ≡ true)
    × (o.endpoint ≡ n.endpoint)
    × (o.secret_id ≡ n.credential_ref)

sent-IsOrder :
    (P : Node → Type 0) (w : World) (c : Context) (operation : String) (payload : Fields) (db : Db)
    (required : String) (n : Node)
    → plan_operation operation ≡ some required
    → P n
    → owned (admin_owner c) n ≡ true
    → is_ready w required db n ≡ true
    → IsOrder P w c db (order_for w operation payload n)
unfolding is_ready
sent-IsOrder P w c operation payload db required n known p own ready =
    let (same, enabled) = and-true (n.owner == admin_owner c) n.enabled own in
    elim (Option-cases (latest_probe w.rounded n.id db)) [
      | inl never ↦ absurd (cc (rw (is_ready, never) at ready))
      | inr (latest, probed) ↦
          let k = rw (is_ready, probed) at ready in
          let (found, filled) =
            and-true (latest.status == "online" && flag required latest.capabilities) _ k in
          let (online, capable) = and-true (latest.status == "online") _ found in
          (
            n,
            required,
            p,
            known,
            (eq_iff n.owner (admin_owner c)).0 same,
            enabled,
            (latest, probed, (eq_iff latest.status "online").0 online, capable),
            filled,
            refl,
            refl,
          )
    ]

answer_orders : (r : Run) → (answer_run r).2 ≡ r.orders
unfolding answer_run
answer_orders r = ground arith

to-IsOrder :
    (P : Node → Type 0) (w : World) (c : Context) (data' : Fields) (db : Db)
    → All P db.nodes
    → All (IsOrder P w c db) (apply_to w c data' db).2
unfolding apply_to
to-IsOrder P w c data' db held =
    let operation = lower (strip (text_of "operation" "" data')) in
    let payload = dict_or_empty (get_or "payload" Json.null data') in
    elim (Option-cases (plan_operation operation)) [
      | inl unknown ↦ rw (apply_to, unknown) tt
      | inr (required, known) ↦ elim (Bool-cases (ltb 4096 (w.json_bytes payload))) [
        | inl large ↦ rw (apply_to, known, large) tt
        | inr small ↦
            elim (Bool-cases (
              operation == "system-updates"
              && not (is_fingerprint (lower (strip (text_of "fingerprint" "" payload)))))) [
                | inl bad ↦ rw (apply_to, known, small, bad) tt
                | inr good ↦
                    elim (Selection-cases
                      (select_nodes (admin_owner c) (get_or "node_ids" Json.null data') db)) [
                        | inr (e, refused) ↦ rw (apply_to, known, small, good, refused) tt
                        | inl (nodes, chosen) ↦
                            elim (Option-cases (first_blocked w required db nodes)) [
                              | inr (n, blocked) ↦
                                  rw (apply_to, known, small, good, chosen, blocked) tt
                              | inl free ↦
                                  let both =
                                    All-both (λ n. P n × (owned (admin_owner c) n ≡ true))
                                      (λ n. is_ready w required db n ≡ true) nodes
                                      (nodes-Owned P (admin_owner c) _ db nodes chosen held)
                                      (ready_nodes w required db nodes free) in
                                  rw (apply_to, known, small, good, chosen, free)
                                    (rw (answer_orders (send_all w c operation payload nodes db)) (
                                      All-orders _ (IsOrder P w c db) w c operation payload
                                        (λ n p.
                                          sent-IsOrder P w c operation payload db required n known
                                            p.0.0 p.0.1 p.1)
                                        nodes db both))
                            ]
                      ]
              ]
      ]
    ]

-- Every order that a batch gives goes to a node of the table, with all that holds of those, which is
-- the administrator's and enabled and which the latest probe found online and capable of the
-- operation, at the node's endpoint with its credential.
pub orders_only_ready :
    (P : Node → Type 0) (w : World) (c : Context) (body : Body) (db : Db)
    → All P db.nodes
    → All (IsOrder P w c db) (fleet_apply w c body db).2
unfolding fleet_apply
orders_only_ready P w c Body.other db held = tt
orders_only_ready P w c Body.empty db held = to-IsOrder P w c Fields.end db held
orders_only_ready P w c (Body.object data') db held = to-IsOrder P w c data' db held
