-- ===== src/Hub/ReadCache/Tenants.antt =====
-- The keys of the caches of apps/nagisalake-hub/src/hub/state.rs: tenants stay apart, and an
-- invalidation reaches every entry that it is about.
use Prim.Native.Char.{code}
use Prim.Native.String.append
use Prim.Native.String.{◌++◌ as join}
use nagisa_lake.Prelude.{
  ℕ, ◌≡◌, refl, sym, ap, ◌∙◌, String, Bool, true, false, not, none, List, [], ◌∷◌, ◌++◌, codes, get,
  retain, arith, Lacks, join-single, join_injective, ==_iff,
}
use nagisa_lake.Hub.ReadCache.{
  TtlCache, lookup, keep_keys, starts_with, ends_with, same_codes, read_cache_key, ReadCache,
  cached_device_access, invalidate_cached_device_access_for_user,
  invalidate_cached_device_access_for_organization,
}
use nagisa_lake.Hub.ReadCache.Answers.{get-retain_keys}

codes-join : (s t : String) → codes (join s t) ≡ codes s ++ codes t
codes-join String.[] t = ap codes (append.nil t)
codes-join (String.◌∷◌ c s) t =
    ap codes (append.cons c s t) ∙ ap (λ cs. code c ∷ cs) (codes-join s t)

starts_with-append : (cs ds es : List ℕ) → starts_with (cs ++ ds) (cs ++ es) ≡ starts_with ds es
unfolding starts_with
starts_with-append [] ds es = refl
starts_with-append (c ∷ cs) ds es = ground (arith, starts_with-append cs ds es, ==_iff c c)

same_codes_refl : (cs : List ℕ) → same_codes cs cs ≡ true
unfolding same_codes
same_codes_refl [] = refl
same_codes_refl (c ∷ cs) = ground (arith, same_codes_refl cs, ==_iff c c)

ends_with-append : (cs ds : List ℕ) → ends_with (cs ++ ds) ds ≡ true
unfolding ends_with
ends_with-append [] [] = same_codes_refl []
ends_with-append [] (d ∷ ds) = rw (same_codes_refl (d ∷ ds))
ends_with-append (c ∷ cs) ds = ground (arith, ends_with-append cs ds)

-- Two resources have one key only if their organizations and their ids are the same, where the ids
-- of the organizations have no NUL in them.
pub read_cache_key_injective :
    (o p r s : String)
    → Lacks "\0" o
    → Lacks "\0" p
    → read_cache_key o r ≡ read_cache_key p s
    → (o ≡ p) × (r ≡ s)
unfolding read_cache_key
read_cache_key_injective o p r s a b h =
    join_injective "\0" o p r s a b
      (sym (ap (join o) (join-single "\0" r)) ∙ h ∙ ap (join p) (join-single "\0" s))

prefixed : (o u : String) → starts_with (codes (read_cache_key o u)) (codes (join o "\0")) ≡ true
unfolding read_cache_key starts_with
prefixed o u =
    ap (λ cs. starts_with cs (codes (join o "\0")))
      (codes-join o (join "\0" u) ∙ ap (λ t. codes o ++ codes t) (join-single "\0" u))
    ∙ ap (starts_with (codes o ++ (0 ∷ codes u))) (codes-join o "\0")
    ∙ starts_with-append (codes o) (0 ∷ codes u) (0 ∷ [])

suffixed : (o u : String) → ends_with (codes (read_cache_key o u)) (codes (join "\0" u)) ≡ true
unfolding read_cache_key
suffixed o u =
    ap (λ cs. ends_with cs (codes (join "\0" u))) (codes-join o (join "\0" u))
    ∙ ends_with-append (codes o) (codes (join "\0" u))

lookup-keep_keys :
    {T : Type 0} (keep : String → Bool) (now : ℕ) (k : String) (c : TtlCache T)
    → keep k ≡ false
    → (lookup now k (keep_keys keep c)).1 ≡ none
unfolding lookup keep_keys
lookup-keep_keys keep now k c out =
    let gone : get k (retain (λ e. keep e.0) c.entries) ≡ none =
      get-retain_keys keep k c.entries ∙ rw out in
    rw (gone, lookup) refl

-- After the access in an organization is invalidated, no access of any user in it is answered from
-- the cache. After the access of a user is invalidated, none of it in any organization is.
pub invalidated_access :
    {J R D : Type 0} (now : ℕ) (organization user : String) (cache : ReadCache J R D)
    → ((cached_device_access now organization user
          (invalidate_cached_device_access_for_organization organization cache)).1
        ≡ none)
      × ((cached_device_access now organization user
            (invalidate_cached_device_access_for_user user cache)).1
          ≡ none)
unfolding cached_device_access invalidate_cached_device_access_for_organization
    invalidate_cached_device_access_for_user
invalidated_access now o u cache = (
  lookup-keep_keys (λ key. not (starts_with (codes key) (codes (join o "\0")))) now
      (read_cache_key o u) cache.device_access (ap not (prefixed o u)),
  lookup-keep_keys (λ key. not (ends_with (codes key) (codes (join "\0" u)))) now
      (read_cache_key o u) cache.device_access (ap not (suffixed o u)),
)
