-- ===== src/Flow/Names.antt =====
-- The keys that a report reads back from the name of a service.
use mathlib.Core.List.{append_assoc}
use flux_panel_v.Base.{
  ℕ, zero, suc, ◌+◌, ◌/◌, ◌%◌, ◌≤◌, ◌≡◌, ◌≢◌, refl, ap, ◌∙◌, inl, inr, false, Option, some, List,
  [], ◌∷◌, ◌++◌, arith, Text, codes, show_nat, digits_onto, split, eq_text, ltb, All, length, leb,
  Bool-cases, ◌==◌,
}
use flux_panel_v.Model.{Tunnel, UserTunnel}
use flux_panel_v.Gost.{
  ServiceArgs, split_listen_ips, build_services, names_per_ip, build_multi_ip_service_names,
}
use flux_panel_v.Gost.Names.{names_of, names-build_services}
use flux_panel_v.Forward.{tunnel_key, build_service_name}
use flux_panel_v.Flow.{Keys, read_parts}

-- Texts without a separator.
abbrev Lacks : ℕ → Text → Type 0
Lacks sep s = All (λ c. c ≢ sep) s

split-part : (sep : ℕ) (s t : Text) → Lacks sep s → split sep (s ++ (sep ∷ t)) ≡ s ∷ split sep t
unfolding split
split-part sep [] t h = ground arith
split-part sep (c ∷ s) t h =
    let missed : (c == sep) ≡ false = ground arith in rw (missed, split-part sep s t h.1) refl

digits_onto-Lacks : (fuel n : ℕ) (acc : Text) → Lacks b'_' acc → Lacks b'_' (digits_onto fuel n acc)
unfolding digits_onto
digits_onto-Lacks zero n acc h = h
digits_onto-Lacks (suc fuel) n acc h = elim (Bool-cases (ltb n 10)) [
  | inl last ↦ rw last (ground arith, h)
  | inr more ↦ rw more (digits_onto-Lacks fuel (n / 10) _ (ground arith, h))
]

show_nat-Lacks : (n : ℕ) → Lacks b'_' (show_nat n)
unfolding show_nat
show_nat-Lacks n = digits_onto-Lacks 20 n [] tt

length-digits_onto : (fuel n : ℕ) (acc : Text) → length acc ≤ length (digits_onto fuel n acc)
unfolding digits_onto
length-digits_onto zero n acc = omega arith
length-digits_onto (suc fuel) n acc =
    ground (arith, length-digits_onto fuel (n / 10) ((48 + n % 10) ∷ acc))

long_is_not_zero : (s : Text) → 2 ≤ length s → eq_text s (codes "0") ≡ false
unfolding eq_text
long_is_not_zero [] h = absurd (omega arith)
long_is_not_zero (c ∷ []) h = absurd (omega arith)
long_is_not_zero (c ∷ d ∷ s) h = ground arith

pub length-digits_onto-suc :
    (fuel n : ℕ) (acc : Text) → length acc + 1 ≤ length (digits_onto (suc fuel) n acc)
unfolding digits_onto
length-digits_onto-suc fuel n acc =
    ground (arith, length-digits_onto fuel (n / 10) ((48 + n % 10) ∷ acc))

digits_onto-zero : (fuel n : ℕ) → eq_text (digits_onto (suc (suc fuel)) n []) (codes "0") ≡ (n == 0)
digits_onto-zero fuel n = elim (Bool-cases (ltb n 10)) [
  | inl small ↦ unfold digits_onto eq_text in rw small (ground arith)
  | inr large ↦
      let ten : (n == 0) ≡ false = ground arith in
      let two = length-digits_onto-suc fuel (n / 10) ((48 + n % 10) ∷ []) in
      let more : digits_onto (suc (suc fuel)) n []
          ≡ digits_onto (suc fuel) (n / 10) ((48 + n % 10) ∷ []) =
        unfold digits_onto in rw large refl in
      rw (more, ten) (long_is_not_zero _ two)
]

-- Only 0 is written "0".
show_nat-zero : (n : ℕ) → eq_text (show_nat n) (codes "0") ≡ (n == 0)
unfolding show_nat
show_nat-zero n = digits_onto-zero 18 n

pub split-suffixed :
    (forward_id user_id : ℕ) (ut : Option UserTunnel) (rest : Text)
    → split b'_' (build_service_name forward_id user_id ut ++ (b'_' ∷ rest))
      ≡ show_nat forward_id ∷ show_nat user_id ∷ show_nat (tunnel_key ut) ∷ split b'_' rest
unfolding build_service_name
split-suffixed forward_id user_id ut rest =
    let a = show_nat forward_id in
    let b = show_nat user_id in
    let c = show_nat (tunnel_key ut) in
    ap (split b'_') (append_assoc a (b'_' ∷ (b ++ (b'_' ∷ c))) (b'_' ∷ rest))
    ∙ (split-part b'_' a _ (show_nat-Lacks forward_id)
        ∙ ap (λ (ps : List Text). a ∷ ps)
            (ap (split b'_') (append_assoc b (b'_' ∷ c) (b'_' ∷ rest))
              ∙ (split-part b'_' b _ (show_nat-Lacks user_id)
                  ∙ ap (λ (ps : List Text). b ∷ ps)
                      (split-part b'_' c rest (show_nat-Lacks (tunnel_key ut))))))

-- The keys that a name is made of. Without a permission row, and with a row whose key is 0, the
-- forward counts as the administrator's.
abbrev pub keys_of : ℕ → ℕ → Option UserTunnel → Keys
keys_of forward_id user_id ut = record {
  forward = forward_id;
  user = user_id;
  user_tunnel = tunnel_key ut;
  is_admin_forward = tunnel_key ut == 0;
}

abbrev pub ReadsAs : (Text → ℕ) → Keys → Text → Type 0
ReadsAs read_key keys name = read_parts read_key (split b'_' name) ≡ some keys

module _ (read_key : Text → ℕ) (forward_id user_id : ℕ) (ut : Option UserTunnel)
    (reads_forward : read_key (show_nat forward_id) ≡ forward_id)
    (reads_user : read_key (show_nat user_id) ≡ user_id)
    (reads_row : read_key (show_nat (tunnel_key ut)) ≡ tunnel_key ut) where
  suffix-ReadsAs :
      (rest : Text)
      → ReadsAs read_key
          (keys_of forward_id user_id ut)
          (build_service_name forward_id user_id ut ++ (b'_' ∷ rest))
  unfolding read_parts
  suffix-ReadsAs rest =
      rw
        (
          split-suffixed forward_id user_id ut rest,
          reads_forward,
          reads_user,
          reads_row,
          show_nat-zero (tunnel_key ut),
        )
        refl

  names_per_ip-ReadsAs :
      (i : ℕ) (ips : List Text)
      → All
          (ReadsAs read_key (keys_of forward_id user_id ut))
          (names_per_ip (build_service_name forward_id user_id ut) i ips)
  unfolding names_per_ip
  names_per_ip-ReadsAs i [] = tt
  names_per_ip-ReadsAs i (ip ∷ ips) =
      let name = build_service_name forward_id user_id ut in
      (
        rw (append_assoc name (b'_' ∷ show_nat i) (codes "_tcp")) (suffix-ReadsAs _),
        (
          rw (append_assoc name (b'_' ∷ show_nat i) (codes "_udp")) (suffix-ReadsAs _),
          names_per_ip-ReadsAs (i + 1) ips,
        ),
      )

  -- Whatever tunnel and listen addresses the services of a forward are built for, a report under the
  -- name of any of them is booked on the keys that its name was built from: forward, user and
  -- permission row, and on the administrator's account exactly when the row's key is 0. The reading of
  -- a key is the database's, and has to read the three keys back from their decimal digits.
  pub build_services-ReadsAs :
      (a : ServiceArgs) (t : Tunnel)
      → All
          (ReadsAs read_key (keys_of forward_id user_id ut))
          (names_of (build_services (build_service_name forward_id user_id ut) a t))
  unfolding build_multi_ip_service_names
  build_services-ReadsAs a t =
      let name = build_service_name forward_id user_id ut in
      rw (names-build_services name a t)
        (elim (Bool-cases (leb (length (split_listen_ips t.tcp_listen_addr)) 1)) [
          | inl single ↦
              rw single (suffix-ReadsAs (codes "tcp"), (suffix-ReadsAs (codes "udp"), tt))
          | inr many ↦ rw many (names_per_ip-ReadsAs 0 (split_listen_ips t.tcp_listen_addr))
        ])

pub length-show_nat-pos : (n : ℕ) → 1 ≤ length (show_nat n)
unfolding show_nat
length-show_nat-pos n = length-digits_onto-suc 19 n []
