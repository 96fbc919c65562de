-- ===== src/Panel/Security/Csrf.antt =====
-- internal/panel/security.go: which requests of a browser pass the CSRF check. The browser keeps the
-- cookie that the replies set.
use hexplus_v.Base.{
  ◌≡◌, refl, ap, ◌≢◌, ◌↔◌, ◌⊎◌, inl, inr, Bool, true, false, ◌&&◌, ◌||◌, not, Option, none, some,
  List, [], ◌∷◌, ◌++◌, map, arith, if◌then◌else◌, Bool-cases,
}
use hexplus_v.Panel.Security.{Request, is_mutation, csrf_exempt, cookie_value, wrap_csrf}
use hexplus_v.Text.{Text, codes, has_prefix, has_prefix-append, text_eq, text_eq_iff}

-- A visit: the request but for the cookie, and the token that `newCSRFToken` would draw.
pub record Visit : Type 0 where
  pub method : Text
  pub path : Text
  pub header : Text
  pub drawn : Text

abbrev pub request : Option Text → Visit → Request
request jar v = record { cookie = jar; header = v.header; method = v.method; path = v.path }

abbrev kept : Option Text → Option Text → Option Text
kept jar none = jar
kept jar (some token) = some token

-- The cookie in the browser after some visits.
abbrev pub browse : List Visit → Option Text → Option Text
browse [] jar = jar
browse (v ∷ vs) jar = browse vs (kept jar (wrap_csrf v.drawn (request jar v)).set_cookie)

-- The first token that is not empty.
abbrev pub first_token : List Text → Text
first_token [] = []
first_token ([] ∷ ts) = first_token ts
first_token ((c ∷ t) ∷ ts) = c ∷ t

abbrev pub drawn_by : List Visit → List Text
drawn_by = map (λ v. v.drawn)

abbrev pub IsMutation : Text → Type 0
IsMutation m =
    (m ≡ codes "POST") ⊎ ((m ≡ codes "PUT") ⊎ ((m ≡ codes "PATCH") ⊎ (m ≡ codes "DELETE")))

-- The login form and the subscriptions.
abbrev pub IsExempt : Text → Type 0
IsExempt p = (p ≡ codes "/login") ⊎ ((rest : Text) × (p ≡ codes "/sub/" ++ rest))

-- The double submit: a header that is not empty and repeats the token.
abbrev pub IsEchoed : Text → Text → Type 0
IsEchoed token header = (header ≢ []) × (header ≡ token)

IsMutation-iff : (m : Text) → (is_mutation m ≡ true) ↔ IsMutation m
unfolding is_mutation
IsMutation-iff m = ground (
  arith,
  text_eq_iff m (codes "POST"),
  text_eq_iff m (codes "PUT"),
  text_eq_iff m (codes "PATCH"),
  text_eq_iff m (codes "DELETE"),
)

prefix_rest : (p s : Text) → has_prefix p s ≡ true → (rest : Text) × (s ≡ p ++ rest)
unfolding has_prefix
prefix_rest [] s h = (s, refl)
prefix_rest (c ∷ p) [] h = absurd (ground (arith, h))
prefix_rest (c ∷ p) (d ∷ s) h =
    let (rest, e) = prefix_rest p s (ground (arith, h)) in
    let same : d ≡ c = ground (arith, h) in (rest, rw (same, e) refl)

IsExempt-iff : (p : Text) → (csrf_exempt p ≡ true) ↔ IsExempt p
unfolding csrf_exempt
IsExempt-iff p = (to, from)
  where
    to : csrf_exempt p ≡ true → IsExempt p
    to h = elim (Bool-cases (text_eq p (codes "/login"))) [
      | inl e ↦ inl ((text_eq_iff p (codes "/login")).0 e)
      | inr e ↦ inr (prefix_rest (codes "/sub/") p (rw e at h))
    ]

    from : IsExempt p → csrf_exempt p ≡ true
    from (inl e) = rw ((text_eq_iff p (codes "/login")).1 e) refl
    from (inr (rest, e)) =
        let k : has_prefix (codes "/sub/") p ≡ true =
          rw e (has_prefix-append (codes "/sub/") rest) in
        ground (arith, k)

browse-first_token :
    (vs : List Visit) (jar : Option Text)
    → cookie_value (browse vs jar) ≡ first_token (cookie_value jar ∷ drawn_by vs)
unfolding wrap_csrf text_eq
browse-first_token [] none = refl
browse-first_token [] (some []) = refl
browse-first_token [] (some (c ∷ t)) = refl
browse-first_token (v ∷ vs) none = browse-first_token vs (some v.drawn)
browse-first_token (v ∷ vs) (some []) = browse-first_token vs (some v.drawn)
browse-first_token (v ∷ vs) (some (c ∷ t)) = browse-first_token vs (some (c ∷ t))

first_token_last :
    (ts : List Text) (d : Text)
    → first_token (ts ++ d ∷ []) ≡ (if text_eq (first_token ts) [] then d else first_token ts)
unfolding text_eq
first_token_last [] [] = refl
first_token_last [] (c ∷ d) = refl
first_token_last ([] ∷ ts) d = first_token_last ts d
first_token_last ((c ∷ t) ∷ ts) d = refl

drawn_by-append :
    (vs : List Visit) (v : Visit) → drawn_by (vs ++ v ∷ []) ≡ drawn_by vs ++ v.drawn ∷ []
drawn_by-append [] v = refl
drawn_by-append (w ∷ vs) v = ap (◌∷◌ w.drawn) (drawn_by-append vs v)

IsEchoed-iff :
    (h token : Text) → (not (text_eq h [] || not (text_eq h token)) ≡ true) ↔ IsEchoed token h
IsEchoed-iff h token = ground (arith, text_eq_iff h [], text_eq_iff h token)

-- What the check asks of a request when this token is in force.
check_iff :
    (m p h token : Text)
    → ((if is_mutation m && not (csrf_exempt p)
          then not (text_eq h [] || not (text_eq h token))
          else true)
        ≡ true)
      ↔ (¬ (IsMutation m) ⊎ (IsExempt p ⊎ IsEchoed token h))
check_iff m p h token = go (is_mutation m) (csrf_exempt p) refl refl
  where
    go :
        (a b : Bool)
        → is_mutation m ≡ a
        → csrf_exempt p ≡ b
        → ((if a && not b then not (text_eq h [] || not (text_eq h token)) else true) ≡ true)
          ↔ (¬ (IsMutation m) ⊎ (IsExempt p ⊎ IsEchoed token h))
    go false b e k = (λ x. inl (λ y. absurd (ground (arith, e, (IsMutation-iff m).1 y))), λ x. refl)
    go true true e k = (λ x. inr (inl ((IsExempt-iff p).0 k)), λ x. refl)
    go true false e k = (λ x. inr (inr ((IsEchoed-iff h token).0 x)), back)
      where
        back :
            ¬ (IsMutation m) ⊎ (IsExempt p ⊎ IsEchoed token h)
            → not (text_eq h [] || not (text_eq h token)) ≡ true
        back (inl n) = absurd (n ((IsMutation-iff m).0 e))
        back (inr (inl x)) = absurd (ground (arith, k, (IsExempt-iff p).1 x))
        back (inr (inr x)) = (IsEchoed-iff h token).1 x

-- A browser that keeps the cookies of the replies, and starts without one, gets a request through, after
-- any visits, exactly if its method is none of POST, PUT, PATCH and DELETE, or its path is `/login` or
-- begins with `/sub/`, or its header is not empty and repeats the token in force. This is the first token
-- that is not empty of those drawn for the visits and for the request.
pub browse_passes_iff :
    (vs : List Visit) (v : Visit)
    → ((wrap_csrf v.drawn (request (browse vs none) v)).passes ≡ true) ↔ (
        ¬ (IsMutation v.method)
        ⊎ (IsExempt v.path ⊎ IsEchoed (first_token (drawn_by (vs ++ v ∷ []))) v.header))
unfolding wrap_csrf
browse_passes_iff vs v =
    rw (drawn_by-append vs v, first_token_last (drawn_by vs) v.drawn, browse-first_token vs none)
      (check_iff v.method v.path v.header
        (if text_eq (first_token (drawn_by vs)) [] then v.drawn else first_token (drawn_by vs)))
