-- ===== src/Evaluation/Accounting.antt =====
-- The cash, the positions and the totals of a run, against the list of its fills.

use kronos_stock.Common.{
  ℕ, ◌+◌, ◌*◌, ◌≡◌, ◌++◌, [], ◌∷◌, sum_by, sum_by-append, arith, if◌then◌else◌,
}
use kronos_stock.Common.Int.{ℤ, pos, ◌+ℤ◌, ◌-ℤ◌, +ℤ_assoc, sum_ℤ, sum_ℤ-append, sum_ℤ_one}
use kronos_stock.Symbols.{Symbol, s005930, s000660, same_symbol, buy, sell}
use kronos_stock.Evaluation.Records.{EvaluationConfig, Fill}
use kronos_stock.Evaluation.Run.{Track}

-- What a fill does to the account, written from its fields alone.
abbrev pub cash_effect : Fill → ℤ
cash_effect f = elim f.side [
  | buy ↦ pos 0 -ℤ pos (f.quantity * f.fill_price_krw + f.fee_krw + f.tax_krw)
  | sell ↦ pos (f.quantity * f.fill_price_krw) -ℤ pos (f.fee_krw + f.tax_krw)
]

abbrev pub quantity_effect : Symbol → Fill → ℤ
quantity_effect s f =
    if same_symbol f.symbol s
    then elim f.side [ buy ↦ pos f.quantity | sell ↦ pos 0 -ℤ pos f.quantity ]
    else pos 0

pub record IsReconciled (c : EvaluationConfig) (t : Track) : Type 0 where
  pub cash_settled : t.cash ≡ pos c.initial_cash_krw +ℤ sum_ℤ cash_effect t.fills
  pub held_005930 : t.positions.at_005930 ≡ sum_ℤ (quantity_effect s005930) t.fills
  pub held_000660 : t.positions.at_000660 ≡ sum_ℤ (quantity_effect s000660) t.fills
  pub fees_paid : t.fees ≡ sum_by (λ f. f.fee_krw) t.fills
  pub taxes_paid : t.taxes ≡ sum_by (λ f. f.tax_krw) t.fills
  pub slippage_paid : t.slippage ≡ sum_by (λ f. f.slippage_krw) t.fills
  pub turned_over : t.turnover ≡ sum_by (λ f. f.quantity * f.raw_price_krw) t.fills

-- Booking one more fill keeps the sums, if the track moves by what the fill says.
module _ (c : EvaluationConfig) (t u : Track) (f : Fill)
    (booked : u.fills ≡ t.fills ++ (f ∷ [])) where
  book_sum : (g : Fill → ℤ) → sum_ℤ g u.fills ≡ sum_ℤ g t.fills +ℤ g f
  book_sum g = rw (booked, sum_ℤ-append g t.fills (f ∷ []), sum_ℤ_one g f)

  book_total : (g : Fill → ℕ) → sum_by g u.fills ≡ sum_by g t.fills + g f
  book_total g = rw (booked, sum_by-append g t.fills (f ∷ [])) (omega arith)

  pub book-IsReconciled :
      IsReconciled c t
      → u.cash ≡ t.cash +ℤ cash_effect f
      → u.positions.at_005930 ≡ t.positions.at_005930 +ℤ quantity_effect s005930 f
      → u.positions.at_000660 ≡ t.positions.at_000660 +ℤ quantity_effect s000660 f
      → u.fees ≡ t.fees + f.fee_krw
      → u.taxes ≡ t.taxes + f.tax_krw
      → u.slippage ≡ t.slippage + f.slippage_krw
      → u.turnover ≡ t.turnover + f.quantity * f.raw_price_krw
      → IsReconciled c u
  book-IsReconciled r a b d e g h k = record {
    cash_settled = cc (
      a,
      r.cash_settled,
      book_sum cash_effect,
      +ℤ_assoc (pos c.initial_cash_krw) (sum_ℤ cash_effect t.fills) (cash_effect f),
    );
    held_005930 = cc (b, r.held_005930, book_sum (quantity_effect s005930));
    held_000660 = cc (d, r.held_000660, book_sum (quantity_effect s000660));
    fees_paid = omega (arith, e, r.fees_paid, book_total (λ f. f.fee_krw));
    taxes_paid = omega (arith, g, r.taxes_paid, book_total (λ f. f.tax_krw));
    slippage_paid = omega (arith, h, r.slippage_paid, book_total (λ f. f.slippage_krw));
    turned_over = omega (arith, k, r.turned_over, book_total (λ f. f.quantity * f.raw_price_krw));
  }
