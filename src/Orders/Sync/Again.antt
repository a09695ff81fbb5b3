-- ===== src/Orders/Sync/Again.antt =====
-- A snapshot that `sync_order_by_number`, plugins/nautobot-app-nbcot/nbcot/cisco/sync.py, stores
-- twice, and the orders that it leaves alone.
use nautobot_docker_compose.Orders.Lines.{sync_lines, synced, line_keys, OrderLine}
use nautobot_docker_compose.Orders.Changes.Resync.{record_changes-resync}
use nautobot_docker_compose.Base.{
  false, nat_eq, list_eq, none, some-injective, ◌∙◌, sym, inr, [], ap, inl, distinct, ℕ, ◌≡◌, Bool,
  true, Option, some, List,
}
use nautobot_docker_compose.Orders.Changes.{record_changes, Update}
use nautobot_docker_compose.Orders.Sync.Stored.{sync_order-Starts, Starts, find_order-put_order}
use nautobot_docker_compose.Orders.Sync.{
  sync_order, change_snapshot, new_order, Order, OrderSnapshot, is_order, find_order, written_order,
}
use nautobot_docker_compose.Base.Text.{Text}

is_order-written :
    (environment number : Text) (now : ℕ) (snapshot : OrderSnapshot) (old : Order)
    (lines : List OrderLine)
    → is_order environment number old ≡ true
    → is_order environment number (written_order now snapshot old lines) ≡ true
unfolding is_order written_order
is_order-written environment number now snapshot old lines h = h

module _ (is_valid_order : Order → Bool) (is_valid : OrderLine → Bool) where
  -- The table has the order as written.
  found-after :
      {now : ℕ} {environment source : Text} {tracked : Option (List Text)}
      {snapshot : OrderSnapshot} {orders : List Order} {updates : List Update} {after : List Order}
      (s : Starts is_valid_order is_valid now environment source tracked snapshot orders updates
        after)
      → find_order environment snapshot.order_number after
        ≡ some (written_order now snapshot s.old s.stores.lines)
  found-after {now} {environment} {source} {tracked} {snapshot} {orders} s = rw (
    s.stores.stored,
    find_order-put_order (written_order now snapshot s.old s.stores.lines) environment
        snapshot.order_number orders,
    is_order-written environment snapshot.order_number now snapshot s.old s.stores.lines
        s.its_number,
  )

  unique_lines :
      {now : ℕ} {environment source : Text} {tracked : Option (List Text)}
      {snapshot : OrderSnapshot} {orders : List Order} {updates : List Update} {after : List Order}
      (s : Starts is_valid_order is_valid now environment source tracked snapshot orders updates
        after)
      → ((o : Order)
          → find_order environment snapshot.order_number orders ≡ some o
          → distinct (line_keys o.lines) ≡ true)
      → distinct (line_keys s.old.lines) ≡ true
  unfolding new_order line_keys distinct
  unique_lines s unique = elim s.from_table [
    | inl (_, _, e) ↦ ap (λ (o : Order). distinct (line_keys o.lines)) e
    | inr (_, found) ↦ unique s.old found
  ]

  -- Synchronising an order with the same snapshot a second time, at whatever time, from whatever
  -- source and whatever lines are tracked, records no update, if the order's line keys were unique
  -- and neither synchronisation is refused.
  pub sync_order-again :
      (now now' : ℕ) (environment source source' : Text) (tracked tracked' : Option (List Text))
      (snapshot : OrderSnapshot) (orders after after' : List Order) (updates updates' : List Update)
      → ((o : Order)
          → find_order environment snapshot.order_number orders ≡ some o
          → distinct (line_keys o.lines) ≡ true)
      → sync_order is_valid_order is_valid now environment source tracked snapshot orders
        ≡ (synced updates, after)
      → sync_order is_valid_order is_valid now' environment source' tracked' snapshot after
        ≡ (synced updates', after')
      → updates' ≡ []
  unfolding written_order change_snapshot
  sync_order-again now now' environment source source' tracked tracked' snapshot orders after after'
        updates updates' unique h h' =
      let s =
        sync_order-Starts is_valid_order is_valid now environment source tracked snapshot orders
          h in
      let s' =
        sync_order-Starts is_valid_order is_valid now' environment source' tracked' snapshot after
          h' in
      let found = found-after s in
      elim s'.from_table [
        | inl (_, missing, _) ↦
            let no : ◌≡◌ {A = Option Order} none
                (some (written_order now snapshot s.old s.stores.lines)) =
              sym missing ∙ found in
            cc
        | inr (is_old, e) ↦
            let w = written_order now snapshot s.old s.stores.lines in
            let same = some-injective w s'.old (sym found ∙ e) in
            s'.stores.recorded
            ∙ ap
                (λ (c : Bool).
                  record_changes c source' s'.old.fields.state s'.old.lines
                    (change_snapshot snapshot) s'.stores.lines)
                is_old
            ∙ ap
                (λ (o : Order).
                  record_changes false source' o.fields.state o.lines (change_snapshot snapshot)
                    s'.stores.lines)
                (sym same)
            ∙ record_changes-resync is_valid tracked tracked' source' (change_snapshot snapshot)
                snapshot.lines s.old.lines s.stores.lines s'.stores.lines (unique_lines s unique)
                s.stores.lines_synced
                (ap (λ (o : Order). sync_lines is_valid tracked' snapshot.lines o.lines) same
                  ∙ s'.stores.lines_synced)
      ]
