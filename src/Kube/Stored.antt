-- ===== src/Kube/Stored.antt =====
-- What the API server documents of reads: an object is found under its own name, and a status
-- write that it accepts is what a later read finds.
use aistio.Prelude.{
  String, ◌≡◌, sym, ap, ◌∙◌, inl, inr, Bool, false, ◌&&◌, none, some, [], ◌∷◌, arith, ◌==◌, ==_iff,
  comparable_text, if◌then◌else◌, Bool-cases,
}
use aistio.Api.Meta.{ObjectMeta}
use aistio.Kube.{Client, found, not_found, Wrote, written, write_failed}

-- `status` is the part of the object that a status write sends.
pub record IsStored {S A B : Type 0} (meta : A → ObjectMeta) (status : A → B) (client : Client S A)
    : Type 0 where
  pub found_key :
      (s : S) (namespace name : String) (a : A)
      → client.get s namespace name ≡ found a
      → ((meta a).namespace ≡ namespace) × ((meta a).name ≡ name)
  pub read_back :
      (s : S) (a b : A)
      → (client.update_status s a).1 ≡ written b
      → (client.get (client.update_status s a).0 (meta a).namespace (meta a).name ≡ found b)
        × (status b ≡ status a)

-- A server of one object, which it is the state of: it shows that the laws can hold.
module _ {A : Type 0} (meta : A → ObjectMeta) where
  abbrev pub is_named : A → String → String → Bool
  is_named a namespace name = ((meta a).namespace == namespace) && ((meta a).name == name)

  abbrev pub single_write : A → A → A × Wrote A
  single_write s a =
      if is_named s (meta a).namespace (meta a).name then (a, written a) else (s, write_failed)

  abbrev pub single : Client A A
  single = record {
    get = λ s namespace name. if is_named s namespace name then found s else not_found;
    list = λ s namespace labels. some (s ∷ []);
    create = λ s a. (s, none);
    update = single_write;
    update_status = single_write;
    delete = λ s a. (s, false);
    delete_all_of = λ s namespace labels. s;
  }

  single_key :
      (s : A) (namespace name : String) (a : A)
      → single.get s namespace name ≡ found a
      → ((meta a).namespace ≡ namespace) × ((meta a).name ≡ name)
  single_key s namespace name a h =
      let n = ==_iff (meta s).namespace namespace in
      let m = ==_iff (meta s).name name in
      elim (Bool-cases (is_named s namespace name)) [
        | inl e ↦
            let q : s ≡ a = ground (arith, h, e) in
            (
              ap (λ x. (meta x).namespace) (sym q) ∙ ground (arith, e, n),
              ap (λ x. (meta x).name) (sym q) ∙ ground (arith, e, m),
            )
        | inr e ↦ absurd (ground (arith, h, e))
      ]

  single_read :
      (s a b : A)
      → (single.update_status s a).1 ≡ written b
      → (single.get (single.update_status s a).0 (meta a).namespace (meta a).name ≡ found b)
        × (b ≡ a)
  single_read s a b h = elim (Bool-cases (is_named s (meta a).namespace (meta a).name)) [
    | inl e ↦
        let q : a ≡ b = ground (arith, h, e) in
        (
          ground (
            arith,
            e,
            q,
            ==_iff (meta a).namespace (meta a).namespace,
            ==_iff (meta a).name (meta a).name,
          ),
          sym q,
        )
    | inr e ↦ absurd (ground (arith, h, e))
  ]

  pub single-IsStored : {B : Type 0} (status : A → B) → IsStored meta status single
  single-IsStored status = record {
    found_key = single_key;
    read_back = λ s a b h. let r = single_read s a b h in (r.0, ap status r.1);
  }
