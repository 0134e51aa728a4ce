-- ===== src/Solana/Executor/Budget/Index.antt =====
-- `last_compiled_index` of `src/solana/executor.rs` finds the route's last instruction.
use trading_aggregators.Prelude.{
  ℕ, suc, ◌+◌, ◌≡◌, ◌≢◌, refl, ap, ◌∙◌, not, Option, none, some, List, [], ◌∷◌, ◌++◌, filter,
  filter-append, length, length-append, get_elem?, get_elem?-append_last, arith,
}
use trading_aggregators.Error.{ok}
use trading_aggregators.Solana.Keys.{Pubkey, Instruction, compute_budget_program}
use trading_aggregators.Solana.Types.{TransactionFormat, v0, v1, Tip}
use trading_aggregators.Solana.Executor.Budget.{
  is_budget, is_compute_unit_limit, take_compute_unit_limit, take_budget, RequestedBudget,
  prepended, with_tip, assembled, last_compiled_index,
}

-- Taking the limit requests out first does not change what is left without budget instructions.
filter_budget-filter_limit :
    (ixs : List Instruction)
    → filter (λ ix. not (is_budget ix)) (filter (λ ix. not (is_compute_unit_limit ix)) ixs)
      ≡ filter (λ ix. not (is_budget ix)) ixs
unfolding is_compute_unit_limit
filter_budget-filter_limit [] = refl
filter_budget-filter_limit (ix ∷ ixs) = ground (arith, filter_budget-filter_limit ixs)

-- What `RequestedBudget::take` leaves of a route.
abbrev pub remaining : List Instruction → TransactionFormat → List Instruction
remaining ixs v0 = filter (λ ix. not (is_compute_unit_limit ix)) ixs
remaining ixs v1 = filter (λ ix. not (is_budget ix)) ixs

pub take_budget-remaining :
    (ixs : List Instruction) (format : TransactionFormat) {budget : RequestedBudget}
    {left : List Instruction}
    → take_budget ixs format ≡ ok (budget, left)
    → left ≡ remaining ixs format
unfolding take_budget take_compute_unit_limit
take_budget-remaining ixs v0 e = ground arith
take_budget-remaining ixs v1 e = ground (arith, filter_budget-filter_limit ixs)

remaining-append_last :
    (route : List Instruction) (last : Instruction) (format : TransactionFormat)
    → last.program_id ≢ compute_budget_program
    → remaining (route ++ (last ∷ [])) format ≡ remaining route format ++ (last ∷ [])
unfolding is_compute_unit_limit
remaining-append_last route last v0 h =
    ground (arith, filter-append (λ ix. not (is_compute_unit_limit ix)) route (last ∷ []))
remaining-append_last route last v1 h =
    ground (arith, filter-append (λ ix. not (is_budget ix)) route (last ∷ []))

-- The place of the last instruction of a route is its length, whatever follows.
get_elem?-last :
    (xs : List Instruction) (last : Instruction) (ys : List Instruction)
    → get_elem? ((xs ++ (last ∷ [])) ++ ys) (length xs) ≡ some last
get_elem?-last [] last ys = refl
get_elem?-last (x ∷ xs) last ys = get_elem?-last xs last ys

get_elem?-behind_two :
    (a b : Instruction) (zs : List Instruction) (i : ℕ)
    → get_elem? (a ∷ b ∷ zs) (i + 2) ≡ get_elem? zs i
get_elem?-behind_two a b zs i =
    let e : i + 2 ≡ suc (suc i) = omega arith in ap (λ (j : ℕ). get_elem? (a ∷ b ∷ zs) j) e

get_elem?-with_tip :
    (payer : Pubkey) (t : Option Tip) (xs : List Instruction) (last : Instruction)
    → get_elem? (with_tip payer t (xs ++ (last ∷ []))) (length xs) ≡ some last
unfolding with_tip
get_elem?-with_tip payer none xs last = get_elem?-append_last xs last []
get_elem?-with_tip payer (some t) xs last = get_elem?-last xs last _

get_elem?-assembled :
    (format : TransactionFormat) (limit price : ℕ) (zs : List Instruction) (i : ℕ)
    → get_elem? (assembled format limit price zs) (i + prepended format) ≡ get_elem? zs i
unfolding assembled
get_elem?-assembled v0 limit price zs i = get_elem?-behind_two _ _ zs i
get_elem?-assembled v1 limit price zs i =
    let e : i + 0 ≡ i = omega arith in ap (λ (j : ℕ). get_elem? zs j) e

last_compiled_index-eq :
    (route : List Instruction) (last : Instruction) (format : TransactionFormat)
    → last.program_id ≢ compute_budget_program
    → last_compiled_index (route ++ (last ∷ [])) format
      ≡ some (length (remaining route format) + prepended format)
unfolding last_compiled_index
last_compiled_index-eq route last v0 h = ground (
  arith,
  ap length (remaining-append_last route last v0 h),
  length-append (remaining route v0) (last ∷ []),
)
last_compiled_index-eq route last v1 h = ground (
  arith,
  ap length (remaining-append_last route last v1 h),
  length-append (remaining route v1) (last ∷ []),
)

-- The index that is computed before the transaction is built is where the route's last instruction,
-- the transfer that pays the sponsor, stands in the compiled list, in both formats, with and without a
-- tip behind it, whatever budget requests the route holds, if that instruction is none of them and
-- `RequestedBudget::take` accepts the route.
pub last_compiled_index-assembled :
    (route : List Instruction) (last : Instruction) (format : TransactionFormat) (limit price : ℕ)
    (payer : Pubkey) (t : Option Tip) {budget : RequestedBudget} {left : List Instruction}
    → last.program_id ≢ compute_budget_program
    → take_budget (route ++ (last ∷ [])) format ≡ ok (budget, left)
    → (index : ℕ) × (last_compiled_index (route ++ (last ∷ [])) format ≡ some index)
      × (get_elem? (assembled format limit price (with_tip payer t left)) index ≡ some last)
last_compiled_index-assembled route last format limit price payer t {budget} {left} h e =
    let rest = remaining route format in
    let left_eq : left ≡ rest ++ (last ∷ []) =
      take_budget-remaining (route ++ (last ∷ [])) format e
      ∙ remaining-append_last route last format h in
    (
      length rest + prepended format,
      last_compiled_index-eq route last format h,
      ap
            (λ zs.
              get_elem? (assembled format limit price (with_tip payer t zs))
                (length rest + prepended format))
            left_eq
          ∙ (get_elem?-assembled format limit price _ (length rest)
              ∙ get_elem?-with_tip payer t rest last),
    )
