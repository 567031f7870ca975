-- ===== src/Storage/Again.antt =====
-- MID/j1939_profile_storage.c: what opens, opens again.
use teep_j1939_patent.Base.{ℕ, ◌+◌, ◌≡◌, ◌∙◌, ap, sym, subst, inl, inr, ◌⊎◌, arith}
use teep_j1939_patent.Storage.Defs.{Info, Storage, ok, slot_address}
use teep_j1939_patent.Storage.Ops.{open_latest}
use teep_j1939_patent.Storage.Load.{IsImage, Loads}
use teep_j1939_patent.Storage.Local.{Loads-same}
use teep_j1939_patent.Storage.Latest.{
  open_latest-Opened, open_latest_some, open_latest_both, Loads-unique,
}

-- A storage with the same flash and another image buffer opens with the same profile.
pub open_latest-same :
    (s t : Storage) (info : Info)
    → IsImage s.image
    → IsImage t.image
    → t.flash ≡ s.flash
    → (open_latest s).0 ≡ ok info
    → (open_latest t).0 ≡ ok info
open_latest-same s t info ls lt same e =
    let opened = open_latest-Opened s info ls e in
    let forth : (slot : ℕ) (i : Info) → Loads slot s i → Loads slot t i = λ slot i h.
      Loads-same slot s t i ls lt (λ j below. ap (λ f. f.memory (slot_address slot + j)) (sym same))
        h in
    let back : (slot : ℕ) (i : Info) → Loads slot t i → Loads slot s i = λ slot i h.
      Loads-same slot t s i lt ls (λ j below. ap (λ f. f.memory (slot_address slot + j)) same) h in
    let (other, k) =
      open_latest_some t info.slot info lt opened.in_range (forth info.slot info opened.loads) in
    let after = open_latest-Opened t other lt k in
    let which : (other.slot ≡ info.slot)
        ⊎ (((info.slot ≡ 0) × (other.slot ≡ 1)) ⊎ ((info.slot ≡ 1) × (other.slot ≡ 0))) =
      omega (arith, opened.in_range, after.in_range) in
    elim which [
      | inl one ↦
          k
          ∙ ap ok (
              Loads-unique info.slot t other info (subst (λ i. Loads i t other) one after.loads)
                (forth info.slot info opened.loads))
      | inr (inl (first, second)) ↦
          let a = subst (λ i. Loads i s info) first opened.loads in
          let b = subst (λ i. Loads i t other) second after.loads in
          open_latest_both t info other lt (forth 0 info a) b
          ∙ sym (open_latest_both s info other ls a (back 1 other b))
          ∙ e
      | inr (inr (second, first)) ↦
          let a = subst (λ i. Loads i t other) first after.loads in
          let b = subst (λ i. Loads i s info) second opened.loads in
          open_latest_both t other info lt a (forth 1 info b)
          ∙ sym (open_latest_both s other info ls (back 0 other a) b)
          ∙ e
    ]
