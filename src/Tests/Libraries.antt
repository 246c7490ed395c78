-- ===== src/Tests/Libraries.antt =====
-- Concrete libraries. A number is printed as one byte of its value.
use Prim.Native.Nat.{min, max}
use hvbench.Base.{
  ℕ, ◌+◌, ◌^◌, ◌≤◌, ◌<◌, ltb, ◌==◌, ◌≡◌, refl, ◌≢◌, true, false, List, [], ◌∷◌, ◌++◌, Option, none,
  some, arith, Text, length, if◌then◌else◌,
}
use hvbench.Base.Int.{ℤ, pos, negsuc}
use hvbench.External.Boost.{Boost, Without}
use hvbench.External.Queue.{ConcurrentQueue}
use hvbench.External.Accumulators.{Accumulators}
use hvbench.External.Random.{Random}
use hvbench.External.Fluid.{Fluid, OfMessage}
use hvbench.Stats.Latency.{Sent}
use hvbench.Controller.Defs.{Externals}

unfoldable pub fmt : Text → List Text → Text
fmt [] args = []
fmt (c ∷ []) args = c ∷ []
fmt (c ∷ d ∷ s) [] = c ∷ fmt (d ∷ s) []
fmt (c ∷ d ∷ s) (a ∷ args) = elim (c == b'%') [
  | true ↦ a ++ fmt s args
  | false ↦ c ∷ fmt (d ∷ s) (a ∷ args)
]

pub fmt_copy : (c : ℕ) (s : Text) (args : List Text) → c ≢ b'%' → fmt (c ∷ s) args ≡ c ∷ fmt s args
unfolding fmt
fmt_copy c [] args h = refl
fmt_copy c (d ∷ s) [] h = refl
fmt_copy c (d ∷ s) (a ∷ args) h = ground arith

pub fmt_end : fmt [] [] ≡ []
unfolding fmt
fmt_end = refl

pub fmt_s : (a s : Text) (args : List Text) → fmt (b'%' ∷ b's' ∷ s) (a ∷ args) ≡ a ++ fmt s args
unfolding fmt
fmt_s a s args = refl

pub fmt_d : (a s : Text) (args : List Text) → fmt (b'%' ∷ b'd' ∷ s) (a ∷ args) ≡ a ++ fmt s args
unfolding fmt
fmt_d a s args = refl

unfoldable pub add_to_first : ℕ → List Text → List Text
add_to_first c [] = (c ∷ []) ∷ []
add_to_first c (p ∷ ps) = (c ∷ p) ∷ ps

unfoldable pub split_slashes : Text → List Text
unfolding add_to_first
split_slashes [] = [] ∷ []
split_slashes (c ∷ s) =
    let rest = split_slashes s in if c == b'/' then [] ∷ rest else add_to_first c rest

pub split_slashes_last : (a : Text) → Without b'/' a → split_slashes a ≡ a ∷ []
unfolding split_slashes
split_slashes_last [] h = refl
split_slashes_last (c ∷ a) h = ground (arith, h.0, split_slashes_last a h.1)

pub split_slashes_slash :
    (a s : Text) → Without b'/' a → split_slashes (a ++ b'/' ∷ s) ≡ a ∷ split_slashes s
unfolding split_slashes
split_slashes_slash [] s h = refl
split_slashes_slash (c ∷ a) s h = ground (arith, h.0, split_slashes_slash a s h.1)

unfoldable pub read_u32 : Text → Option ℕ
read_u32 (n ∷ []) = if ltb n (2 ^ 32) then some n else none
read_u32 _ = none

pub read_u32-lt : (s : Text) (n : ℕ) → read_u32 s ≡ some n → n < 2 ^ 32
unfolding read_u32
read_u32-lt (m ∷ []) n h = ground arith
read_u32-lt _ n h = absurd (cc)

unfoldable pub print_int : ℤ → Text
print_int (pos n) = n ∷ []
print_int (negsuc n) = b'-' ∷ n ∷ []

pub read_u32-print : (n : ℕ) → n < 2 ^ 32 → read_u32 (print_int (pos n)) ≡ some n
unfolding read_u32 print_int
read_u32-print n h = ground arith

abbrev pub boost_example : Boost
boost_example = record {
  format = fmt;
  format_end = fmt_end;
  format_copy = fmt_copy;
  format_s = fmt_s;
  format_d = fmt_d;
  split = split_slashes;
  split_last = split_slashes_last;
  split_slash = split_slashes_slash;
  cast_u32 = read_u32;
  cast_u64 = read_u32;
  cast_u32-lt = read_u32-lt;
  print = print_int;
  cast_u32-print = read_u32-print;
}

unfoldable pub take_first : {A : Type 0} → List A → Option (A × List A)
take_first [] = none
take_first (a ∷ rest) = some (a, rest)

pub take_first_nil : {A : Type 0} (q : List A) → q ≡ [] → take_first q ≡ none
unfolding take_first
take_first_nil q e = rw e

pub take_first_cons :
    {A : Type 0} (q : List A) (a : A) (rest : List A)
    → q ≡ a ∷ rest
    → (r : List A) × (take_first q ≡ some (a, r)) × (r ≡ rest)
unfolding take_first
take_first_cons q a rest e = (rest, rw e, refl)

pub never_refused : {A : Type 0} (q : List A) (a : A) → true ≡ false → q ++ a ∷ [] ≡ q
never_refused q a h = absurd cc

abbrev pub list_queue : (A : Type 0) → ConcurrentQueue A
list_queue A = record {
  Q = List A;
  new = [];
  try_enqueue = λ q a. (q ++ a ∷ [], true);
  try_dequeue = take_first;
  contents = λ q. q;
  contents-new = refl;
  enqueued = λ q a h. refl;
  refused = never_refused;
  dequeue_empty = take_first_nil;
  dequeue_first = take_first_cons;
}

-- Count, least and greatest sample.
pub record Summary : Type 0 where
  pub n : ℕ
  pub least : ℕ
  pub greatest : ℕ

unfoldable pub add_sample : Summary → ℕ → Summary
add_sample s x =
    if s.n == 0
    then record { n = 1; least = x; greatest = x }
    else record { n = s.n + 1; least = min s.least x; greatest = max s.greatest x }

pub add_sample_n : (s : Summary) (x : ℕ) → (add_sample s x).n ≡ s.n + 1
unfolding add_sample
add_sample_n s x = ground arith

pub add_sample_least : (s : Summary) (x : ℕ) → (add_sample s x).least ≤ x
unfolding add_sample
add_sample_least s x = ground arith

pub add_sample_greatest : (s : Summary) (x : ℕ) → x ≤ (add_sample s x).greatest
unfolding add_sample
add_sample_greatest s x = ground arith

pub add_sample_falls : (s : Summary) (x : ℕ) → s.n ≢ 0 → (add_sample s x).least ≤ s.least
unfolding add_sample
add_sample_falls s x h = ground arith

pub add_sample_rises : (s : Summary) (x : ℕ) → s.n ≢ 0 → s.greatest ≤ (add_sample s x).greatest
unfolding add_sample
add_sample_rises s x h = ground arith

abbrev pub acc_example : Accumulators
acc_example = record {
  Acc = Summary;
  fresh = record { n = 0; least = 0; greatest = 0 };
  add = add_sample;
  count = λ s. s.n;
  mean = λ s. s.least;
  min = λ s. s.least;
  max = λ s. s.greatest;
  count-fresh = refl;
  count-add = add_sample_n;
  min-le = add_sample_least;
  max-le = add_sample_greatest;
  min-mono = add_sample_falls;
  max-mono = add_sample_rises;
}

pub first_index : (ws : List ℕ) → ws ≢ [] → 0 < length ws
first_index [] h = absurd (h refl)
first_index (w ∷ ws) h = omega arith

-- Every draw is a millisecond, and the first kind.
abbrev pub random_example : Random
random_example = record {
  Rng = ℕ;
  seeded = λ n. n;
  Exponential = ℕ;
  exponential = λ rate. rate;
  draw_us = λ d g. (1000, g);
  Float = ℕ;
  cast_float = read_u32;
  Discrete_dist = List ℕ;
  discrete = λ ws. ws;
  draw_index = λ ws g. (0, g);
  draw_index-lt = λ ws g. first_index ws;
}

unfoldable pub pack_example : OfMessage → Text
pack_example (OfMessage.features_request xid) = 1 ∷ 5 ∷ xid ∷ []
pack_example (OfMessage.echo_request xid) = 1 ∷ 2 ∷ xid ∷ []
pack_example (OfMessage.echo_reply xid) = 1 ∷ 3 ∷ xid ∷ []
pack_example _ = 1 ∷ []

unfoldable pub second_byte_on : Text → ℕ
second_byte_on (a ∷ b ∷ c ∷ s) = c
second_byte_on _ = 0

abbrev pub fluid_example : Fluid
fluid_example = record {
  pack = pack_example;
  packed_length = λ m. length (pack_example m);
  length-pack = λ m. refl;
  xid_of = second_byte_on;
  stats_type_of = λ s. 1;
  ofpt_hello = 0;
  ofpt_error = 1;
  ofpt_echo_request = 2;
  ofpt_echo_reply = 3;
  ofpt_features_request = 5;
  ofpet_hello_failed = 0;
  ofphfc_incompatible = 0;
  ofpfc_add = 0;
  ofpp_none = 0xffff;
  echo_xid = 7;
  hello_xid = 8;
}

abbrev pub externals_example : Externals
externals_example = record {
  boost = boost_example;
  queue = list_queue Sent;
  acc = acc_example;
  fluid = fluid_example;
  random = random_example;
  write_json = λ pairs. [];
}
