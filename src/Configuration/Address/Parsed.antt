-- ===== src/Configuration/Address/Parsed.antt =====
-- An address is read as its protocol and the rest.
use camunda_8_js_sdk.Base.{
  ◌==◌, ==_iff, ◌≡◌, ◌↔◌, inl, inr, refl, sym, ap, ◌∙◌, Bool, true, false, ◌&&◌, none, some, [],
  ◌∷◌, ◌++◌, Text, arith, Bool-cases,
}
use camunda_8_js_sdk.Configuration.Address.{
  Protocol, grpc, grpcs, ZeebeGrpcAddressInfo, prefix_of, starts_with, drop_prefix, host_port_of,
  parse_zeebe_grpc_address,
}

-- What is read of a protocol and a host.
abbrev pub info_of : Protocol → Text → ZeebeGrpcAddressInfo
info_of p host = record {
  full_address = prefix_of p ++ host;
  host_port = host;
  is_secure = elim p [ grpc ↦ false | grpcs ↦ true ];
  protocol = p;
}

both : (a b : Bool) → (a && b) ≡ true → (a ≡ true) × (b ≡ true)
both a b e = ground arith

some_inj : {A : Type 0} {a b : A} → some a ≡ some b → a ≡ b
some_inj e = cc

none-some : {A : Type 0} {a : A} → none ≡ some a → ⊥
none-some e = cc

starts_with-drop_prefix : (p s : Text) → starts_with p s ≡ true → s ≡ p ++ drop_prefix p s
unfolding starts_with drop_prefix
starts_with-drop_prefix [] s e = refl
starts_with-drop_prefix (c ∷ p) [] e = cc
starts_with-drop_prefix (c ∷ p) (d ∷ s) e =
    let (same, rest) = both (c == d) (starts_with p s) e in
    rw ((==_iff c d).0 same, sym (starts_with-drop_prefix p s rest)) refl

parse-prefix_of :
    (p : Protocol) (host : Text)
    → parse_zeebe_grpc_address (prefix_of p ++ host) ≡ some (info_of p host)
unfolding parse_zeebe_grpc_address starts_with host_port_of drop_prefix
parse-prefix_of grpc host = refl
parse-prefix_of grpcs host = refl

parse-none :
    (a : Text)
    → starts_with (prefix_of grpc) a ≡ false
    → starts_with (prefix_of grpcs) a ≡ false
    → parse_zeebe_grpc_address a ≡ none
unfolding parse_zeebe_grpc_address
parse-none a e f = rw (e, f) refl

read_back :
    (p : Protocol) (a : Text) (i : ZeebeGrpcAddressInfo)
    → starts_with (prefix_of p) a ≡ true
    → parse_zeebe_grpc_address a ≡ some i
    → (q : Protocol) × (host : Text) × (a ≡ prefix_of q ++ host) × (i ≡ info_of q host)
read_back p a i s e =
    let host = drop_prefix (prefix_of p) a in
    let same = starts_with-drop_prefix (prefix_of p) a s in
    (p, host, same, some_inj (sym e ∙ ap parse_zeebe_grpc_address same ∙ parse-prefix_of p host))

-- An address is read exactly when it is `grpc://` or `grpcs://` before some host, and what is read is that protocol
-- and that host, with TLS for `grpcs` alone; for every other address it throws.
pub parse_zeebe_grpc_address-inverts :
    (address : Text) (info : ZeebeGrpcAddressInfo)
    → (parse_zeebe_grpc_address address ≡ some info)
      ↔ ((p : Protocol) × (host : Text) × (address ≡ prefix_of p ++ host) × (info ≡ info_of p host))
parse_zeebe_grpc_address-inverts address info = (
  (λ e. elim (Bool-cases (starts_with (prefix_of grpc) address)) [
    | inl plain ↦ read_back grpc address info plain e
    | inr no_grpc ↦ elim (Bool-cases (starts_with (prefix_of grpcs) address)) [
      | inl secure ↦ read_back grpcs address info secure e
      | inr no_grpcs ↦ absurd (none-some (sym (parse-none address no_grpc no_grpcs) ∙ e))
    ]
  ]),
  (λ (p, host, e, f). rw (e, f) (parse-prefix_of p host)),
)
