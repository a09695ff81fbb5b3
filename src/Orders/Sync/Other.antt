-- ===== src/Orders/Sync/Other.antt =====
-- The orders that `sync_order_by_number`, plugins/nautobot-app-nbcot/nbcot/cisco/sync.py, leaves
-- alone.
use nautobot_docker_compose.Base.{
  ℕ, ◌≡◌, refl, inl, inr, Bool, true, false, ◌&&◌, Option, none, some, List, ◌==◌, nat_eq, list_eq,
  list_beq_iff, arith, Bool-cases,
}
use nautobot_docker_compose.Base.Text.{Text, is_empty}
use nautobot_docker_compose.Orders.Lines.{OrderLine, Synced, synced, refused, sync_lines}
use nautobot_docker_compose.Orders.Sync.{
  Order, OrderSnapshot, is_order, find_order, new_order, written_order, store_lines, sync_found,
  get_or_new, sync_order,
}
use nautobot_docker_compose.Orders.Sync.Stored.{find_order-put_order, find_order-is}

module _ (is_valid_order : Order → Bool) (is_valid : OrderLine → Bool) (e n : Text) where
  store_lines-other :
      (is_created : Bool) (now : ℕ) (source : Text) (snapshot : OrderSnapshot) (old : Order)
      (orders : List Order) (r : Synced (List OrderLine))
      → is_order e n old ≡ false
      → find_order e n
          (store_lines is_valid_order is_valid is_created now source snapshot old orders r).1
        ≡ find_order e n orders
  unfolding store_lines written_order is_order
  store_lines-other is_created now source snapshot old orders (synced lines) h =
      rw (find_order-put_order (written_order now snapshot old lines) e n orders) (ground arith)
  store_lines-other is_created now source snapshot old orders refused h = refl

  sync_found-other :
      (is_created : Bool) (now : ℕ) (source : Text) (tracked : Option (List Text))
      (snapshot : OrderSnapshot) (old : Order) (orders : List Order)
      → is_order e n old ≡ false
      → find_order e n
          (sync_found is_valid_order is_valid is_created now source tracked snapshot old orders).1
        ≡ find_order e n orders
  unfolding sync_found
  sync_found-other is_created now source tracked snapshot old orders h =
      elim (Bool-cases (is_valid_order (written_order now snapshot old old.lines))) [
        | inl v ↦ rw v (
            store_lines-other is_created now source snapshot old orders
              (sync_lines is_valid tracked snapshot.lines old.lines) h)
        | inr v ↦ rw v
      ]

  get_or_new-other :
      (now : ℕ) (environment source : Text) (tracked : Option (List Text))
      (snapshot : OrderSnapshot) (orders : List Order) (found : Option Order)
      → find_order environment snapshot.order_number orders ≡ found
      → (environment == e && snapshot.order_number == n) ≡ false
      → find_order e n
          (get_or_new is_valid_order is_valid now environment source tracked snapshot orders
            found).1
        ≡ find_order e n orders
  unfolding get_or_new new_order is_order
  get_or_new-other now environment source tracked snapshot orders none f h =
      sync_found-other true now source tracked snapshot
        (new_order environment snapshot.order_number) orders h
  get_or_new-other now environment source tracked snapshot orders (some old) f h =
      let its : (old.environment == environment && old.order_number == snapshot.order_number)
          ≡ true =
        find_order-is environment snapshot.order_number orders f in
      sync_found-other false now source tracked snapshot old orders (
        ground (
          arith,
          list_beq_iff old.environment environment,
          list_beq_iff old.order_number snapshot.order_number,
        ))

  -- A synchronisation, refused or not, leaves every order of another environment or number as it
  -- was.
  pub sync_order-other :
      (now : ℕ) (environment source : Text) (tracked : Option (List Text))
      (snapshot : OrderSnapshot) (orders : List Order)
      → (environment == e && snapshot.order_number == n) ≡ false
      → find_order e n
          (sync_order is_valid_order is_valid now environment source tracked snapshot orders).1
        ≡ find_order e n orders
  unfolding sync_order
  sync_order-other now environment source tracked snapshot orders h =
      elim (Bool-cases (is_empty snapshot.order_number)) [
        | inl v ↦ rw v
        | inr v ↦ rw v (
            get_or_new-other now environment source tracked snapshot orders
              (find_order environment snapshot.order_number orders) refl h)
      ]
