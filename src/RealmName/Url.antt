-- ===== src/RealmName/Url.antt =====
-- src/realm_name.ts: realmBaseURL on different names.
use macula_mcp.Base.{◌≡◌, ◌≢◌, sym, ap, ◌∙◌, List, [], reverse, Text, codes}
use mathlib.Core.List.{reverse-reverse, append_cancel_left}
use macula_mcp.RealmName.{split, join, realm_base_url}
use macula_mcp.RealmName.Labels.{
  is_dotless, split-nonempty, join-split, split-join, split-dotless, all-reverse,
}

reverse-nonempty {ℓ} : {A : Type ℓ} (xs : List A) → xs ≢ [] → reverse xs ≢ []
reverse-nonempty xs h e = h (sym (reverse-reverse xs) ∙ ap reverse e)

split-join-reverse : (s : Text) → split (join (reverse (split s))) ≡ reverse (split s)
split-join-reverse s =
    split-join (reverse (split s)) (reverse-nonempty (split s) (split-nonempty s))
      (all-reverse is_dotless (split s) ∙ split-dotless s)

-- The address of a realm determines its name: two names with one address are the same name.
realm_base_url_injective : (a b : Text) → realm_base_url a ≡ realm_base_url b → a ≡ b
unfolding realm_base_url
realm_base_url_injective a b h =
    let joined =
      append_cancel_left (codes "https://realm.") (join (reverse (split a)))
        (join (reverse (split b))) h in
    let turned = sym (split-join-reverse a) ∙ ap split joined ∙ split-join-reverse b in
    let labels = sym (reverse-reverse (split a)) ∙ ap reverse turned ∙ reverse-reverse (split b) in
    sym (join-split a) ∙ ap join labels ∙ join-split b
