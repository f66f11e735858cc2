-- ===== src/Channel/Loading.antt =====
-- What a channel has read when its configuration is accepted.
use moboware.Base.{
  ℕ, Bool, true, false, not, ◌&&◌, Option, none, some, List, Text, codes, text_keys, ◌%◌, ◌^◌, ◌≡◌,
  refl, sym, ◌∙◌, ap, if◌then◌else◌, >>=-eq_some, is_empty, subst, arith, ◌-◌,
}
use moboware.OrderData.Wire.{ℤ, pos, negsuc, to_uint64}
use moboware.Channel.{
  ConfigJson, Channel, contains, at, text_at, load_modules, load_address, load_channel_config,
  load_module_values, set_address, load_rest, load_base_config, to_int, to_port,
}

-- The port of an endpoint that a 64-bit number stands for: its last 16 bits.
unfoldable pub last_16_bits : ℤ → ℕ
last_16_bits (pos n) = n % 2 ^ 16
last_16_bits (negsuc n) = 2 ^ 16 - 1 - n % 2 ^ 16

pub to_port-to_int : (z : ℤ) → to_port (to_int z) ≡ last_16_bits z
unfolding to_port to_int to_uint64 last_16_bits
to_port-to_int (pos n) = omega arith
to_port-to_int (negsuc n) = omega arith

pub some_pair : {A : Type 0} {p q : Bool × A} → some p ≡ some q → (p.0 ≡ q.0) × (p.1 ≡ q.1)
some_pair {A} {p} {q} h = let e : p ≡ q = cc in (ap (λ r. r.0) e, ap (λ r. r.1) e)

pub no_success : {A B : Type 0} {p q : Bool × A} → some p ≡ some q → p.0 ≡ false → q.0 ≡ true → B
no_success h refused loaded = let e = (some_pair h).0 in cc

-- A conditional that gives success takes the branch that can.
pub of_else :
    {A : Type 0} (b : Bool) (c : A) {o : Option (Bool × A)} {x : A}
    → (if not b then some (false, c) else o) ≡ some (true, x)
    → (b ≡ true) × (o ≡ some (true, x))
of_else true c h = (refl, h)
of_else false c h = no_success h refl refl

false_of_not : (b : Bool) → not b ≡ true → b ≡ false
false_of_not true h = cc
false_of_not false h = refl

and_right : (a b : Bool) → a && b ≡ true → b ≡ true
and_right true b h = h
and_right false b h = cc

module _ (J : ConfigJson) where
  load_module_values-modules :
      (vs : Option (List J.Value)) (c c' : Channel)
      → load_module_values J vs c ≡ some (true, c')
      → (is_empty c'.modules ≡ false) × (c'.port ≡ c.port)
  unfolding load_module_values
  load_module_values-modules none c c' h =
      let (some_module, e) = some_pair h in
      (
        subst (λ d. is_empty d.modules ≡ false) e (false_of_not (is_empty c.modules) some_module),
        ap (λ d. d.port) (sym e),
      )
  load_module_values-modules (some vs) c c' h =
      let (r, loaded, g) = >>=-eq_some (load_modules J vs c.modules) _ h in
      let (some_module, e) = some_pair g in
      (
        subst (λ d. is_empty d.modules ≡ false) e
            (false_of_not (is_empty r.1) (and_right r.0 (not (is_empty r.1)) some_module)),
        ap (λ d. d.port) (sym e),
      )

  set_address-port :
      (s : Option Text) (c c' : Channel)
      → some (set_address s c) ≡ some (true, c')
      → c'.port ≡ c.port
  unfolding set_address
  set_address-port none c c' h = no_success h refl refl
  set_address-port (some s) c c' h = ap (λ d. d.port) (sym (some_pair h).1)

  load_address-port :
      (v : J.Value) (c c' : Channel) → load_address J v c ≡ some (true, c') → c'.port ≡ c.port
  unfolding load_address
  load_address-port v c c' h =
      let (has, e, g) = >>=-eq_some (contains J v (codes "Address")) _ h in
      let (y, e', g') = >>=-eq_some (at J v (codes "Address")) _ (of_else has c g).1 in
      set_address-port (J.as_string y) c c' g'

  load_channel_config-port :
      (v x : J.Value) (z : ℤ) (c c' : Channel)
      → at J v (codes "Port") ≡ some x
      → J.as_int64 x ≡ some z
      → load_channel_config J v c ≡ some (true, c')
      → c'.port ≡ to_int z
  unfolding load_channel_config load_rest
  load_channel_config-port v x z c c' has_port number h =
      let (has, e, g) = >>=-eq_some (contains J v (codes "Port")) _ h in
      let (x', e', g') = >>=-eq_some (at J v (codes "Port")) _ (of_else has c g).1 in
      let same : x' ≡ x = cc in
      let found : J.as_int64 x' ≡ some z = ap J.as_int64 same ∙ number in
      let rest : load_address J v (record c { port = to_int z }) ≡ some (true, c') =
        rw (found, load_rest) at g' in
      load_address-port v (record c { port = to_int z }) c' rest

  pub load_base_config-Loaded :
      (v x : J.Value) (z : ℤ) (c c' : Channel)
      → at J v (codes "Port") ≡ some x
      → J.as_int64 x ≡ some z
      → load_base_config J v c ≡ some (true, c')
      → (is_empty c'.modules ≡ false) × (to_port c'.port ≡ last_16_bits z)
  unfolding load_base_config
  load_base_config-Loaded v x z c c' has_port number h =
      let (has, e, g) = >>=-eq_some (contains J v (codes "Name")) _ h in
      let (also, e1, g1) = >>=-eq_some (contains J v (codes "Modules")) _ g in
      let (name, e2, g2) =
        >>=-eq_some (text_at J v (codes "Name")) _ (of_else (has && also) c g1).1 in
      let (r, e3, g3) =
        >>=-eq_some (load_channel_config J v (record c { channel_name = name })) _ g2 in
      let (set, g4) = of_else r.0 r.1 g3 in
      let (values, e5, g5) = >>=-eq_some (at J v (codes "Modules")) _ g4 in
      let (some_module, port) = load_module_values-modules (J.as_array values) r.1 c' g5 in
      let named : Channel = record c { channel_name = name } in
      let read : load_channel_config J v named ≡ some (true, r.1) =
        e3 ∙ ap (λ b. some (b, r.1)) set in
      (
        some_module,
        ap to_port (port ∙ load_channel_config-port v x z named r.1 has_port number read)
            ∙ to_port-to_int z,
      )

  pub load_base_config-modules :
      (v : J.Value) (c c' : Channel)
      → load_base_config J v c ≡ some (true, c')
      → is_empty c'.modules ≡ false
  unfolding load_base_config
  load_base_config-modules v c c' h =
      let (has, e, g) = >>=-eq_some (contains J v (codes "Name")) _ h in
      let (also, e1, g1) = >>=-eq_some (contains J v (codes "Modules")) _ g in
      let (name, e2, g2) =
        >>=-eq_some (text_at J v (codes "Name")) _ (of_else (has && also) c g1).1 in
      let (r, e3, g3) =
        >>=-eq_some (load_channel_config J v (record c { channel_name = name })) _ g2 in
      let (values, e5, g5) = >>=-eq_some (at J v (codes "Modules")) _ (of_else r.0 r.1 g3).1 in
      (load_module_values-modules (J.as_array values) r.1 c' g5).0
