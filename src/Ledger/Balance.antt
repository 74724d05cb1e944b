-- ===== src/Ledger/Balance.antt =====
-- What an account and a fill do to the books of the ledger.
use kronos_stock.Common.{
  ℕ, ◌+◌, ◌*◌, ◌≡◌, refl, sym, subst, String, [], ◌∷◌, ◌++◌, true, false, ◌&&◌, arith,
  if◌then◌else◌, str_eq, eq_iff, sum_by, Bool-cases, inl, inr,
}
use kronos_stock.Common.Int.{
  ℤ, pos, ◌+ℤ◌, ◌-ℤ◌, ◌≤ℤ◌, int_laws, sum_ℤ, sum_ℤ-append, sum_ℤ_one, +ℤ_assoc, +ℤ-zero,
}
use kronos_stock.Symbols.{Symbol, s005930, s000660, same_symbol, buy, sell}
use kronos_stock.Ledger.Records.{Account, PaperFill, CashEvent, PositionEvent, Ledger}
use kronos_stock.Ledger.Checks.{cash_balance, position}
use kronos_stock.Ledger.Fills.{
  trade_events, fee_events, tax_events, position_event, book_fill, lacks_means,
}

-- What a fill does to the cash of its account, fee and tax included.
abbrev pub fill_effect : PaperFill → ℤ
fill_effect f = elim f.side [
  | buy ↦ pos 0 -ℤ pos (f.fill_price_krw * f.quantity + f.fee_krw + f.tax_krw)
  | sell ↦ pos (f.fill_price_krw * f.quantity) -ℤ pos (f.fee_krw + f.tax_krw)
]

abbrev pub fill_cash : String → PaperFill → ℤ
fill_cash a f = if str_eq f.account_id a then fill_effect f else pos 0

abbrev pub fill_shares : String → Symbol → PaperFill → ℤ
fill_shares a s f =
    if str_eq f.account_id a && same_symbol f.symbol s
    then elim f.side [ buy ↦ pos f.quantity | sell ↦ pos 0 -ℤ pos f.quantity ]
    else pos 0

abbrev pub opening_cash : String → Account → ℕ
opening_cash a x = if str_eq x.account_id a then x.initial_cash_krw else 0

-- The cash is the opening cash and the effect of the fills, the positions are the shares that the
-- fills moved, and no position is negative.
pub record IsBalanced (l : Ledger) : Type 0 where
  pub cash_settled :
      (a : String)
      → cash_balance l a ≡ pos (sum_by (opening_cash a) l.accounts) +ℤ sum_ℤ (fill_cash a) l.fills
  pub shares_settled : (a : String) (s : Symbol) → position l a s ≡ sum_ℤ (fill_shares a s) l.fills
  pub shares_nonneg : (a : String) (s : Symbol) → pos 0 ≤ℤ position l a s

abbrev pub cash_in : String → CashEvent → ℤ
cash_in a e = if str_eq e.account_id a then e.amount_krw else pos 0

-- An amount of the fill's account.
abbrev at_account : String → PaperFill → ℤ → ℤ
at_account a f n = if str_eq f.account_id a then n else pos 0

gross_of : PaperFill → ℤ
gross_of f = elim f.side [
  | buy ↦ pos 0 -ℤ pos (f.fill_price_krw * f.quantity)
  | sell ↦ pos (f.fill_price_krw * f.quantity)
]

trade_events_cash :
    (a : String) (f : PaperFill) → sum_ℤ (cash_in a) (trade_events f) ≡ at_account a f (gross_of f)
unfolding trade_events sum_ℤ gross_of
trade_events_cash a f = +ℤ-zero _

fee_events_cash :
    (a : String) (f : PaperFill)
    → sum_ℤ (cash_in a) (fee_events f) ≡ at_account a f (pos 0 -ℤ pos f.fee_krw)
unfolding fee_events sum_ℤ
fee_events_cash a f = grind int_laws

tax_events_cash :
    (a : String) (f : PaperFill)
    → sum_ℤ (cash_in a) (tax_events f) ≡ at_account a f (pos 0 -ℤ pos f.tax_krw)
unfolding tax_events sum_ℤ
tax_events_cash a f = grind int_laws

effect_of_parts :
    (f : PaperFill)
    → gross_of f +ℤ (pos 0 -ℤ pos f.fee_krw +ℤ (pos 0 -ℤ pos f.tax_krw)) ≡ fill_effect f
unfolding gross_of
effect_of_parts f = grind int_laws

at_account_sum :
    (a : String) (f : PaperFill) (m n : ℤ)
    → at_account a f m +ℤ at_account a f n ≡ at_account a f (m +ℤ n)
at_account_sum a f m n = elim (Bool-cases (str_eq f.account_id a)) [
  | inl same ↦ rw same refl
  | inr other ↦ rw other (+ℤ-zero (pos 0))
]

trade_cash :
    (a : String) (f : PaperFill)
    → sum_ℤ (cash_in a) (trade_events f ++ (fee_events f ++ tax_events f)) ≡ fill_cash a f
trade_cash a f =
    rw
      (
        sum_ℤ-append (cash_in a) (trade_events f) (fee_events f ++ tax_events f),
        sum_ℤ-append (cash_in a) (fee_events f) (tax_events f),
        trade_events_cash a f,
        fee_events_cash a f,
        tax_events_cash a f,
        at_account_sum a f (pos 0 -ℤ pos f.fee_krw) (pos 0 -ℤ pos f.tax_krw),
        at_account_sum a f (gross_of f) (pos 0 -ℤ pos f.fee_krw +ℤ (pos 0 -ℤ pos f.tax_krw)),
        effect_of_parts f,
      )
      refl

pub book_fill-cash :
    (f : PaperFill) (l : Ledger) (a : String)
    → cash_balance (book_fill f l) a ≡ cash_balance l a +ℤ fill_cash a f
unfolding cash_balance book_fill
book_fill-cash f l a =
    rw
      (
        sum_ℤ-append (cash_in a) l.cash_events (trade_events f ++ (fee_events f ++ tax_events f)),
        trade_cash a f,
      )
      refl

abbrev shares_in : String → Symbol → PositionEvent → ℤ
shares_in a s e =
    if str_eq e.account_id a && same_symbol e.symbol s then e.quantity_delta else pos 0

pub book_fill-shares :
    (f : PaperFill) (l : Ledger) (a : String) (s : Symbol)
    → position (book_fill f l) a s ≡ position l a s +ℤ fill_shares a s f
unfolding position book_fill position_event
book_fill-shares f l a s =
    rw
      (
        sum_ℤ-append (shares_in a s) l.position_events (position_event f ∷ []),
        sum_ℤ_one (shares_in a s) (position_event f),
      )
      refl

same_symbol-eq : (s t : Symbol) → same_symbol s t ≡ true → s ≡ t
same_symbol-eq s005930 s005930 h = refl
same_symbol-eq s005930 s000660 h = cc
same_symbol-eq s000660 s005930 h = cc
same_symbol-eq s000660 s000660 h = refl

sold_shares :
    (f : PaperFill) (l : Ledger)
    → lacks_means f l ≡ false
    → pos 0 ≤ℤ position l f.account_id f.symbol
    → pos 0
      ≤ℤ position l f.account_id f.symbol
        +ℤ elim f.side [ buy ↦ pos f.quantity | sell ↦ pos 0 -ℤ pos f.quantity ]
unfolding lacks_means
sold_shares f l means held = grind int_laws

-- What is left of the shares of an account and a symbol.
shares_left :
    (f : PaperFill) (l : Ledger) (a : String) (s : Symbol)
    → lacks_means f l ≡ false
    → pos 0 ≤ℤ position l a s
    → pos 0 ≤ℤ position l a s +ℤ fill_shares a s f
shares_left f l a s means held =
    elim (Bool-cases (str_eq f.account_id a && same_symbol f.symbol s)) [
      | inl moved ↦
          (let same_id : f.account_id ≡ a = ground (arith, eq_iff f.account_id a) in
            let same_share : f.symbol ≡ s = same_symbol-eq f.symbol s (ground arith) in
            let sold = sold_shares f l means (
              subst (λ t. pos 0 ≤ℤ position l f.account_id t) (sym same_share)
                (subst (λ b. pos 0 ≤ℤ position l b s) (sym same_id) held)) in
            rw moved (
              subst
                (λ b.
                  pos 0
                  ≤ℤ position l b s
                    +ℤ elim f.side [ buy ↦ pos f.quantity | sell ↦ pos 0 -ℤ pos f.quantity ])
                same_id
                (subst
                  (λ t.
                    pos 0
                    ≤ℤ position l f.account_id t
                      +ℤ elim f.side [ buy ↦ pos f.quantity | sell ↦ pos 0 -ℤ pos f.quantity ])
                  same_share sold)))
      | inr kept ↦ rw (kept, +ℤ-zero (position l a s)) held
    ]

-- A fill that has the means keeps the balance.
pub book_fill-IsBalanced :
    (f : PaperFill) (l : Ledger)
    → lacks_means f l ≡ false
    → IsBalanced l
    → IsBalanced (book_fill f l)
unfolding book_fill
book_fill-IsBalanced f l means b = record {
  cash_settled = λ a.
      rw
        (
          book_fill-cash f l a,
          b.cash_settled a,
          sum_ℤ-append (fill_cash a) l.fills (f ∷ []),
          sum_ℤ_one (fill_cash a) f,
        )
        (+ℤ_assoc (pos (sum_by (opening_cash a) l.accounts)) (sum_ℤ (fill_cash a) l.fills)
          (fill_cash a f));
  shares_settled = λ a s.
      rw
        (
          book_fill-shares f l a s,
          b.shares_settled a s,
          sum_ℤ-append (fill_shares a s) l.fills (f ∷ []),
          sum_ℤ_one (fill_shares a s) f,
        )
        refl;
  shares_nonneg =
      λ a s. rw (book_fill-shares f l a s) (shares_left f l a s means (b.shares_nonneg a s));
}
