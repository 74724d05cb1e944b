-- ===== src/Ledger/Tables.antt =====
-- The tables of the ledger of paper_trading/ledger.py, and how a row makes one longer.
use kronos_stock.Common.{◌≡◌, refl, ap, ◌∙◌, List, [], ◌∷◌, ◌++◌}
use kronos_stock.Ledger.Records.{
  Account, AgentDecision, RiskReview, KillSwitchEvent, NavSnapshot, AccountEvent, PaperOrder,
  OrderEvent, OrderProposal, PaperFill, CashEvent, Ledger,
}
use kronos_stock.Ledger.Fills.{book_fill, trade_events, fee_events, tax_events, position_event}

-- The earlier rows stand unchanged before the later ones.
abbrev pub Starts : {A : Type 0} → List A → List A → Type 0
Starts {A} xs ys = (later : List A) × (ys ≡ xs ++ later)

append_assoc : {A : Type 0} (xs ys zs : List A) → (xs ++ ys) ++ zs ≡ xs ++ (ys ++ zs)
append_assoc [] ys zs = refl
append_assoc (x ∷ xs) ys zs = ap (λ t. x ∷ t) (append_assoc xs ys zs)

append_nil : {A : Type 0} (xs : List A) → xs ≡ xs ++ []
append_nil [] = refl
append_nil (x ∷ xs) = ap (λ t. x ∷ t) (append_nil xs)

unchanged : {A : Type 0} (xs : List A) → Starts xs xs
unchanged xs = ([], append_nil xs)

longer : {A : Type 0} (xs ys zs : List A) → Starts xs ys → Starts xs (ys ++ zs)
longer xs ys zs (later, e) = (later ++ zs, ap (λ t. t ++ zs) e ∙ append_assoc xs later zs)

-- The tables of the ledger.
pub data Table : Type 0 where
  accounts account_events decisions proposals reviews orders order_events fills : Table
  cash_events position_events nav_snapshots kill_switch_events : Table

abbrev pub GrowsIn : Table → Ledger → Ledger → Type 0
GrowsIn accounts s l = Starts s.accounts l.accounts
GrowsIn account_events s l = Starts s.account_events l.account_events
GrowsIn decisions s l = Starts s.decisions l.decisions
GrowsIn proposals s l = Starts s.proposals l.proposals
GrowsIn reviews s l = Starts s.reviews l.reviews
GrowsIn orders s l = Starts s.orders l.orders
GrowsIn order_events s l = Starts s.order_events l.order_events
GrowsIn fills s l = Starts s.fills l.fills
GrowsIn cash_events s l = Starts s.cash_events l.cash_events
GrowsIn position_events s l = Starts s.position_events l.position_events
GrowsIn nav_snapshots s l = Starts s.nav_snapshots l.nav_snapshots
GrowsIn kill_switch_events s l = Starts s.kill_switch_events l.kill_switch_events

-- Each table of the later ledger starts with the earlier one's rows.
abbrev pub Grows : Ledger → Ledger → Type 0
Grows s l = (t : Table) → GrowsIn t s l

pub stays : (l : Ledger) → Grows l l
stays l accounts = unchanged l.accounts
stays l account_events = unchanged l.account_events
stays l decisions = unchanged l.decisions
stays l proposals = unchanged l.proposals
stays l reviews = unchanged l.reviews
stays l orders = unchanged l.orders
stays l order_events = unchanged l.order_events
stays l fills = unchanged l.fills
stays l cash_events = unchanged l.cash_events
stays l position_events = unchanged l.position_events
stays l nav_snapshots = unchanged l.nav_snapshots
stays l kill_switch_events = unchanged l.kill_switch_events

module _ (s l : Ledger) (g : Grows s l) where
  pub opened : (row : Account) → Grows s (record l { accounts = l.accounts ++ (row ∷ []) })
  opened row accounts = longer s.accounts l.accounts (row ∷ []) (g accounts)
  opened row t = g t

  pub evented :
      (row : AccountEvent) → Grows s (record l { account_events = l.account_events ++ (row ∷ []) })
  evented row account_events =
      longer s.account_events l.account_events (row ∷ []) (g account_events)
  evented row t = g t

  pub decided : (row : AgentDecision) → Grows s (record l { decisions = l.decisions ++ (row ∷ []) })
  decided row decisions = longer s.decisions l.decisions (row ∷ []) (g decisions)
  decided row t = g t

  pub proposed :
      (row : OrderProposal) → Grows s (record l { proposals = l.proposals ++ (row ∷ []) })
  proposed row proposals = longer s.proposals l.proposals (row ∷ []) (g proposals)
  proposed row t = g t

  pub judged : (row : RiskReview) → Grows s (record l { reviews = l.reviews ++ (row ∷ []) })
  judged row reviews = longer s.reviews l.reviews (row ∷ []) (g reviews)
  judged row t = g t

  pub ordered : (row : PaperOrder) → Grows s (record l { orders = l.orders ++ (row ∷ []) })
  ordered row orders = longer s.orders l.orders (row ∷ []) (g orders)
  ordered row t = g t

  pub stepped :
      (row : OrderEvent) → Grows s (record l { order_events = l.order_events ++ (row ∷ []) })
  stepped row order_events = longer s.order_events l.order_events (row ∷ []) (g order_events)
  stepped row t = g t

  pub paid : (row : CashEvent) → Grows s (record l { cash_events = l.cash_events ++ (row ∷ []) })
  paid row cash_events = longer s.cash_events l.cash_events (row ∷ []) (g cash_events)
  paid row t = g t

  pub valued :
      (row : NavSnapshot) → Grows s (record l { nav_snapshots = l.nav_snapshots ++ (row ∷ []) })
  valued row nav_snapshots = longer s.nav_snapshots l.nav_snapshots (row ∷ []) (g nav_snapshots)
  valued row t = g t

  pub switched :
      (row : KillSwitchEvent)
      → Grows s (record l { kill_switch_events = l.kill_switch_events ++ (row ∷ []) })
  switched row kill_switch_events =
      longer s.kill_switch_events l.kill_switch_events (row ∷ []) (g kill_switch_events)
  switched row t = g t

  pub filled : (f : PaperFill) → Grows s (book_fill f l)
  unfolding book_fill
  filled f fills = longer s.fills l.fills (f ∷ []) (g fills)
  filled f cash_events =
      longer s.cash_events l.cash_events (trade_events f ++ (fee_events f ++ tax_events f))
        (g cash_events)
  filled f position_events =
      longer s.position_events l.position_events (position_event f ∷ []) (g position_events)
  filled f t = g t
