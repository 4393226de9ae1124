-- ===== src/Cli/Valid.antt =====
-- What the options of a server have been seen to be.
use baijimu_codex_connector.Text.Numbers.{digits_value, parse_u16, parse_unsigned, unsigned_digits}
use baijimu_codex_connector.Text.{Chars}
use baijimu_codex_connector.Cli.Options.{
  ServerOptions, acceptable, default_listen, extra_args_of, given_port, is_empty, options_of,
  or_else, other_than_default, port_or, server_options,
}
use baijimu_codex_connector.Json.{unwrap_or}
use baijimu_codex_connector.Prelude.{
  [], >>=-eq-ok, Bool, List, Option, Result, String, arith, codes, ensure, ensure-eq-ok, err, false,
  if◌then◌else◌, ltb, nat_eq, none, not, ok, ok-inj, refl, some, subst, true, ℕ, ◌<◌, ◌^◌, ◌||◌,
  ◌∷◌, ◌≡◌,
}
use baijimu_codex_connector.Cli.{named, ParsedArgs}
use baijimu_codex_connector.Text.Equality.{chars_eq-eq}

below_bound :
    (bound n : ℕ) (value : Option ℕ)
    → (elim value [ none ↦ none | some m ↦ if ltb m bound then some m else none ]) ≡ some n
    → n < bound
below_bound bound n none h = cc h
below_bound bound n (some m) h = ground arith

unsigned_digits-bound :
    (bound : ℕ) (cs : Chars) (n : ℕ) → unsigned_digits bound cs ≡ some n → n < bound
unfolding unsigned_digits
unsigned_digits-bound bound [] n h = cc h
unsigned_digits-bound bound (c ∷ cs) n h = below_bound bound n (digits_value 0 (c ∷ cs)) h

either_bound :
    (b : Bool) (bound n : ℕ) (first other : Option ℕ)
    → (first ≡ some n → n < bound)
    → (other ≡ some n → n < bound)
    → (if b then first else other) ≡ some n
    → n < bound
either_bound true bound n first other k l h = k h
either_bound false bound n first other k l h = l h

pub parse_unsigned-bound :
    (bound : ℕ) (cs : Chars) (n : ℕ) → parse_unsigned bound cs ≡ some n → n < bound
unfolding parse_unsigned
parse_unsigned-bound bound [] n h = cc h
parse_unsigned-bound bound (c ∷ cs) n h =
    either_bound (nat_eq c b'+') bound n (unsigned_digits bound cs) (unsigned_digits bound (c ∷ cs))
      (unsigned_digits-bound bound cs n) (unsigned_digits-bound bound (c ∷ cs) n) h

positive_some :
    (value : Option ℕ) (e e' : Chars) (p : ℕ)
    → ◌≡◌ {A = Result Chars ℕ}
        (elim value [ none ↦ err e | some n ↦ if ltb 0 n then ok n else err e' ])
        (ok p)
    → (value ≡ some p) × (0 < p)
positive_some none e e' p h = cc h
positive_some (some n) e e' p h = (ground arith, ground arith)

port_or-bounds :
    (configured : ℕ) (given : Option Chars) (p : ℕ)
    → 0 < configured
    → configured < 2 ^ 16
    → port_or configured given ≡ ok p
    → (0 < p) × (p < 2 ^ 16)
unfolding port_or
port_or-bounds configured none p low high h =
    let same : configured ≡ p = cc h in (omega (arith, same, low), omega (arith, same, high))
port_or-bounds configured (some v) p low high h =
    let (value, positive) = positive_some (parse_u16 v) _ _ p h in
    (positive, parse_unsigned-bound (2 ^ 16) v p value)

-- A listen address that passes is the default one, wherever it comes from.
default_only :
    (a b : Option Chars) (extra : List Chars)
    → not (other_than_default a || other_than_default b || not (is_empty extra)) ≡ true
    → (unwrap_or (or_else a b) default_listen ≡ default_listen) × (extra ≡ [])
default_only none none [] h = (refl, refl)
default_only none (some v) [] h = (chars_eq-eq v default_listen (ground arith), refl)
default_only (some v) b [] h = (chars_eq-eq v default_listen (ground arith), refl)
default_only a b (x ∷ xs) h = ground arith

module _ (var : String → Option Chars) (parse_list : Chars → Result Chars (List Chars))
    (configured : ℕ) where
  -- The options of a server that starts.
  pub record Valid (options : ServerOptions) : Type 0 where
    pub listens : options.listen ≡ default_listen
    pub no_arguments : options.extra_args ≡ []
    pub port_positive : 0 < options.port
    pub port_small : options.port < 2 ^ 16

  acceptable_lem :
      (parsed : ParsedArgs) (extra : List Chars)
      → acceptable var parse_list configured parsed extra ≡ true
      → (unwrap_or
            (or_else (named (codes "listen") parsed.values) (var "CODEX_CONNECTOR_LISTEN"))
            default_listen
          ≡ default_listen)
        × (extra ≡ [])
  unfolding acceptable
  acceptable_lem parsed extra h =
      default_only (named (codes "listen") parsed.values) (var "CODEX_CONNECTOR_LISTEN") extra h

  -- Options that are accepted have the transport that is supported, no arguments to pass on, and a port
  -- between 1 and 65535, if the configured port is one.
  pub server_options-Valid :
      (parsed : ParsedArgs) (options : ServerOptions)
      → 0 < configured
      → configured < 2 ^ 16
      → server_options var parse_list configured parsed ≡ ok options
      → Valid options
  unfolding server_options options_of
  server_options-Valid parsed options low high h =
      let (extra, at_extra, h) = >>=-eq-ok (extra_args_of var parse_list configured parsed) _ h in
      let (u, tests, h) =
        >>=-eq-ok (ensure (acceptable var parse_list configured parsed extra) _) _ h in
      let (port, at_port, h) =
        >>=-eq-ok (port_or configured (given_port var parse_list configured parsed)) _ h in
      let (listens, plain) = acceptable_lem parsed extra (ensure-eq-ok _ _ tests) in
      let (low_port, high_port) =
        port_or-bounds configured (given_port var parse_list configured parsed) port low high
          at_port in
      subst Valid (ok-inj _ refl h) (record {
        listens = listens;
        no_arguments = plain;
        port_positive = low_port;
        port_small = high_port;
      })
