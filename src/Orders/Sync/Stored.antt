-- ===== src/Orders/Sync/Stored.antt =====
-- What `sync_order_by_number` of plugins/nautobot-app-nbcot/nbcot/cisco/sync.py records and leaves in
-- the table.
use nautobot_docker_compose.Base.{
  false, none, ◌⊎◌, inr, ap, inl, sym, Bool-cases, Option, ℕ, beq_refl, Bool, ◌≡◌, refl, true, some,
  List, [], ◌∷◌, nat_eq, list_eq, list_beq_iff, if◌then◌else◌, arith,
}
use nautobot_docker_compose.Base.Text.{is_empty, Text}
use nautobot_docker_compose.Orders.Sync.{
  sync_order, get_or_new, change_snapshot, written_order, OrderSnapshot, sync_found, store_lines,
  Update, Synced, new_order, Order, find_order, put_order, is_order,
}
use nautobot_docker_compose.Orders.Lines.{refused, sync_lines, synced, OrderLine, Synced}
use nautobot_docker_compose.Orders.Changes.{record_changes, Update}

pub find_order-put_order :
    (order : Order) (environment number : Text) (orders : List Order)
    → find_order environment number (put_order order orders) ≡ (
        if is_order environment number order
        then some order
        else find_order environment number orders)
unfolding find_order put_order is_order
find_order-put_order order environment number [] = refl
find_order-put_order order environment number (o ∷ orders) = ground (
  arith,
  find_order-put_order order environment number orders,
  list_beq_iff o.environment order.environment,
  list_beq_iff o.order_number order.order_number,
  list_beq_iff order.environment environment,
  list_beq_iff order.order_number number,
  list_beq_iff o.environment environment,
  list_beq_iff o.order_number number,
)

pub find_order-is :
    (environment number : Text) (orders : List Order) {o : Order}
    → find_order environment number orders ≡ some o
    → is_order environment number o ≡ true
unfolding find_order
find_order-is environment number [] h = cc
find_order-is environment number (x ∷ orders) {o} h =
    ground (arith, find_order-is environment number orders {o = o})

is_order-new :
    (environment number : Text) → is_order environment number (new_order environment number) ≡ true
unfolding is_order new_order
is_order-new environment number = ground (arith, beq_refl environment, beq_refl number)

-- The updates of an answer.
updates_or : Synced (List Update) → List Update
updates_or (synced updates) = updates
updates_or refused = []

module _ (is_valid_order : Order → Bool) (is_valid : OrderLine → Bool) where
  -- What a synchronisation of `old` that is not refused records and stores.
  pub record Stores (is_created : Bool) (now : ℕ) (source : Text) (tracked : Option (List Text))
      (snapshot : OrderSnapshot) (old : Order) (orders : List Order) (updates : List Update)
      (after : List Order) : Type 0 where
    pub lines : List OrderLine
    pub lines_synced : sync_lines is_valid tracked snapshot.lines old.lines ≡ synced lines
    pub recorded :
        updates
        ≡ record_changes is_created source old.fields.state old.lines
            (change_snapshot snapshot)
            lines
    pub stored : after ≡ put_order (written_order now snapshot old lines) orders

  store_lines-Stores :
      (is_created : Bool) (now : ℕ) (source : Text) (tracked : Option (List Text))
      (snapshot : OrderSnapshot) (old : Order) (orders : List Order) (r : Synced (List OrderLine))
      {updates : List Update} {after : List Order}
      → sync_lines is_valid tracked snapshot.lines old.lines ≡ r
      → store_lines is_valid_order is_valid is_created now source snapshot old orders r
        ≡ (synced updates, after)
      → Stores is_created now source tracked snapshot old orders updates after
  unfolding store_lines updates_or
  store_lines-Stores is_created now source tracked snapshot old orders (synced lines) e h = record {
    lines = lines;
    lines_synced = e;
    recorded = sym (ap (λ (r : Synced (List Update) × List Order). updates_or r.0) h);
    stored = sym (ap (λ (r : Synced (List Update) × List Order). r.1) h);
  }
  store_lines-Stores is_created now source tracked snapshot old orders refused e h =
      let no : ◌≡◌ {A = Synced (List Update)} refused (synced _) =
        ap (λ (r : Synced (List Update) × List Order). r.0) h in
      cc

  sync_found-Stores :
      (is_created : Bool) (now : ℕ) (source : Text) (tracked : Option (List Text))
      (snapshot : OrderSnapshot) (old : Order) (orders : List Order) {updates : List Update}
      {after : List Order}
      → sync_found is_valid_order is_valid is_created now source tracked snapshot old orders
        ≡ (synced updates, after)
      → Stores is_created now source tracked snapshot old orders updates after
  unfolding sync_found
  sync_found-Stores is_created now source tracked snapshot old orders {updates} {after} h =
      elim (Bool-cases (is_valid_order (written_order now snapshot old old.lines))) [
        | inl e ↦
            store_lines-Stores is_created now source tracked snapshot old orders
              (sync_lines is_valid tracked snapshot.lines old.lines) refl (rw e at h)
        | inr e ↦
            let no : ◌≡◌ {A = Synced (List Update)} refused (synced updates) =
              ap (λ (r : Synced (List Update) × List Order). r.0) (rw e at h) in
            cc
      ]

  -- The order that a synchronisation starts from.
  pub record Starts (now : ℕ) (environment source : Text) (tracked : Option (List Text))
      (snapshot : OrderSnapshot) (orders : List Order) (updates : List Update) (after : List Order)
      : Type 0 where
    pub old : Order
    pub is_created : Bool
    pub its_number : is_order environment snapshot.order_number old ≡ true
    pub from_table :
        ((is_created ≡ true)
          × (find_order environment snapshot.order_number orders ≡ none)
          × (old ≡ new_order environment snapshot.order_number))
        ⊎ ((is_created ≡ false) × (find_order environment snapshot.order_number orders ≡ some old))
    pub stores : Stores is_created now source tracked snapshot old orders updates after

  get_or_new-Starts :
      (now : ℕ) (environment source : Text) (tracked : Option (List Text))
      (snapshot : OrderSnapshot) (orders : List Order) (found : Option Order)
      {updates : List Update} {after : List Order}
      → find_order environment snapshot.order_number orders ≡ found
      → get_or_new is_valid_order is_valid now environment source tracked snapshot orders found
        ≡ (synced updates, after)
      → Starts now environment source tracked snapshot orders updates after
  unfolding get_or_new
  get_or_new-Starts now environment source tracked snapshot orders none e h = record {
    old = new_order environment snapshot.order_number;
    is_created = true;
    its_number = is_order-new environment snapshot.order_number;
    from_table = inl (refl, e, refl);
    stores =
        sync_found-Stores true now source tracked snapshot
          (new_order environment snapshot.order_number) orders h;
  }
  get_or_new-Starts now environment source tracked snapshot orders (some old) e h = record {
    old = old;
    is_created = false;
    its_number = find_order-is environment snapshot.order_number orders e;
    from_table = inr (refl, e);
    stores = sync_found-Stores false now source tracked snapshot old orders h;
  }

  pub sync_order-Starts :
      (now : ℕ) (environment source : Text) (tracked : Option (List Text))
      (snapshot : OrderSnapshot) (orders : List Order) {updates : List Update} {after : List Order}
      → sync_order is_valid_order is_valid now environment source tracked snapshot orders
        ≡ (synced updates, after)
      → Starts now environment source tracked snapshot orders updates after
  unfolding sync_order
  sync_order-Starts now environment source tracked snapshot orders {updates} {after} h =
      elim (Bool-cases (is_empty snapshot.order_number)) [
        | inl e ↦
            let no : ◌≡◌ {A = Synced (List Update)} refused (synced updates) =
              ap (λ (r : Synced (List Update) × List Order). r.0) (rw e at h) in
            cc
        | inr e ↦
            get_or_new-Starts now environment source tracked snapshot orders
              (find_order environment snapshot.order_number orders) refl (rw e at h)
      ]
