-- ===== src/SRange.antt =====
-- include/dparallel_recursion/SRange_comm.h and SRange.h: the range of a parallel loop, how `SRangeInfo` divides
-- it, and the body of a loop with a reduction. Bounds are numbers, and `start` is at most `end`.
pub mod Cut
pub mod Split
pub mod Loop
pub mod Reduce
use dparallel_recursion.Common.{
  ℕ, zero, suc, ◌+◌, ◌-◌, ◌*◌, ◌/◌, ◌%◌, Bool, true, false, Option, none, some, ltb, if◌then◌else◌,
}
use dparallel_recursion.Skeleton.{Info, Body}

-- `end`, plus one element, is the last of the range.
pub record SRange : Type 0 where
  pub start : ℕ
  pub end : ℕ
  pub range_len : ℕ

-- The constructor with two arguments.
unfoldable pub srange : ℕ → ℕ → SRange
srange start end = record { start = start; end = end; range_len = end - start }

-- SRangeInfo::is_base, for the chunk count `dchunk`.
unfoldable pub is_base : ℕ → SRange → Bool
is_base dchunk sr = ltb sr.range_len dchunk

-- SRangeInfo::do_parallel: `none` is the specialisation for LIMITPARALLEL == -1.
unfoldable pub do_parallel : Option ℕ → SRange → Bool
do_parallel none sr = true
do_parallel (some limit) sr = ltb limit sr.range_len

-- SRangeInfo::child
unfoldable pub child : ℕ → ℕ → SRange → SRange
unfolding srange
child dchunk i sr =
    let nmi = sr.range_len / dchunk in
    let nmi_r = sr.range_len % dchunk in
    if ltb i nmi_r
    then srange (sr.start + i * nmi + i) (sr.start + i * nmi + i + nmi + 1)
    else srange (sr.start + i * nmi + nmi_r) (sr.start + i * nmi + nmi_r + nmi)

-- The methods of SRangeInfo together.
abbrev pub srange_info {κ} : {R : Type κ} → ℕ → Option ℕ → Info SRange R
srange_info dchunk limit = record {
  is_base = is_base dchunk;
  num_children = λ sr. dchunk;
  child = child dchunk;
  do_parallel = do_parallel limit;
  do_serial_func = none;
}

-- generic_psr_for_reduce_body: `f` runs the iterations of a base case, `rf` reduces.
abbrev pub generic_psr_for_reduce_body {κ} :
    {R : Type κ} → (ℕ → ℕ → R) → (R → R → R) → R → Body SRange R
generic_psr_for_reduce_body f rf unit = record {
  process_non_base = false;
  pre = λ sr. sr;
  pre_rec = λ sr. sr;
  base = λ sr. f sr.start sr.end;
  non_base = λ sr. unit;
  post = λ r rr. rf rr r;
}

module _ {κ} {R : Type κ} (reducer : R → R → R) (f : ℕ → R) where
  -- while (var < psr_pfor_end), with `n` iterations left
  unfoldable pub loop_from : R → ℕ → ℕ → R
  loop_from tmp var zero = tmp
  loop_from tmp var (suc n) = loop_from (reducer tmp (f var)) (var + 1) n

  -- The function `psr_tmp_func` of psfor_reduce in include/dparallel_recursion/SRange.h, where
  -- `unit` is `Result {}`.
  unfoldable pub psr_tmp_func : R → ℕ → ℕ → R
  unfolding loop_from
  psr_tmp_func unit var psr_pfor_end =
      if ltb var psr_pfor_end then loop_from (f var) (var + 1) (psr_pfor_end - (var + 1)) else unit
