-- ===== src/Obslog/Addresses/Forms.antt =====
-- What the labels and lists are of the forms that connection strings have (pkg/obslog/human.go).
use couchbase_health_observe.Prelude.{
  ℕ, Bool, true, false, not, ◌&&◌, ◌≡◌, refl, ap, ap₂, sym, ◌∙◌, length, length-append, str_eq_refl,
  str_eq-false, List, [], ◌∷◌, ◌++◌, Option, none, some, Str, bytes, str_eq, is_nil, join, map,
  ◌==◌, arith, All, any_of, is_nil-append_cons,
}
use mathlib.Core.List.{append_assoc}
use couchbase_health_observe.Prelude.Strings.{has_byte}
use couchbase_health_observe.Prelude.Strings.Cuts.{
  cut-append, cut_last-append, cut_last-none, cut_byte-append, has_byte-append, split-join,
}
use couchbase_health_observe.Prelude.Strings.Space.{trim_space}
use couchbase_health_observe.Obslog.Addresses.{
  drop_scheme, before_any, drop_port, first_label, trim_suffix, cluster_label, address_list,
}

-- No byte of the text is one of the given ones.
abbrev pub lacks : Str → Str → Bool
lacks chars [] = true
lacks chars (c ∷ s) = not (any_of (λ b. c == b) chars) && lacks chars s

-- One seed node as a connection string names it: a host, and a port or none.
pub record Seed : Type 0 where
  pub host : Str
  pub port : Option Str

abbrev pub written : Seed → Str
written s = elim s.port [ none ↦ s.host | some p ↦ s.host ++ (b':' ∷ p) ]

-- Neither part holds a byte that parts a connection string, and white space stands at no end.
pub record IsSeed (s : Seed) : Type 0 where
  pub plain_host : has_byte b':' s.host ≡ false
  pub plain_port : (p : Str) → s.port ≡ some p → has_byte b':' p ≡ false
  pub plain_text : lacks (bytes ",/?") (written s) ≡ true
  pub trimmed : trim_space (written s) ≡ written s

drop_port-written : (s : Seed) → IsSeed s → drop_port (written s) ≡ s.host
unfolding drop_port
drop_port-written s v =
    elim s.port
        as (λ o.
          s.port ≡ o
          → drop_port (elim o [ none ↦ s.host | some p ↦ s.host ++ (b':' ∷ p) ]) ≡ s.host) [
            | none ↦ λ e. ground (arith, cut_last-none b':' s.host v.plain_host)
            | some p ↦ λ e. ground (arith, cut_last-append b':' s.host p (v.plain_port p e))
          ]
      refl

before_any-lacks : (chars s : Str) → lacks chars s ≡ true → before_any chars s ≡ s
unfolding before_any
before_any-lacks chars [] h = refl
before_any-lacks chars (c ∷ s) h = ground (arith, before_any-lacks chars s)

lacks-no_comma : (s : Str) → lacks (bytes ",/?") s ≡ true → has_byte b',' s ≡ false
unfolding has_byte
lacks-no_comma [] h = refl
lacks-no_comma (c ∷ s) h = ground (arith, lacks-no_comma s)

lacks-path : (s : Str) → lacks (bytes ",/?") s ≡ true → lacks (bytes "/?") s ≡ true
lacks-path [] h = refl
lacks-path (c ∷ s) h = ground (arith, lacks-path s)

lacks-append : (chars s t : Str) → lacks chars (s ++ t) ≡ (lacks chars s && lacks chars t)
lacks-append chars [] t = refl
lacks-append chars (c ∷ s) t = ground (arith, lacks-append chars s t)

before_any-first :
    (chars s rest : Str) (b : ℕ)
    → lacks chars s ≡ true
    → any_of (λ c. b == c) chars ≡ true
    → before_any chars (s ++ (b ∷ rest)) ≡ s
unfolding before_any
before_any-first chars [] rest b h stop = ground arith
before_any-first chars (c ∷ s) rest b h stop = ground (arith, before_any-first chars s rest b)

-- A connection string that names the given seed nodes after a scheme.
abbrev pub connection : Str → List Seed → Str
connection scheme seeds = scheme ++ (bytes "://" ++ join (bytes ",") (map written seeds))

drop_scheme-connection :
    (scheme : Str) (seeds : List Seed)
    → has_byte b':' scheme ≡ false
    → drop_scheme (connection scheme seeds) ≡ join (bytes ",") (map written seeds)
unfolding drop_scheme
drop_scheme-connection scheme seeds h =
    let rest = join (bytes ",") (map written seeds) in
    ground (arith, cut-append b':' (bytes "//") scheme rest h)

lacks_path-join :
    (seeds : List Seed)
    → All IsSeed seeds
    → lacks (bytes "/?") (join (bytes ",") (map written seeds)) ≡ true
unfolding join
lacks_path-join [] v = refl
lacks_path-join (s ∷ []) v = lacks-path (written s) v.0.plain_text
lacks_path-join (s ∷ t ∷ seeds) v = ground (
  arith,
  lacks-append (bytes "/?") (written s) (b',' ∷ join (bytes ",") (map written (t ∷ seeds))),
  lacks-path (written s) v.0.plain_text,
  lacks_path-join (t ∷ seeds) v.1,
)

no_commas :
    (seeds : List Seed) → All IsSeed seeds → All (λ t. has_byte b',' t ≡ false) (map written seeds)
no_commas [] v = tt
no_commas (s ∷ seeds) v = (lacks-no_comma (written s) v.0.plain_text, no_commas seeds v.1)

map-drop_port :
    (seeds : List Seed)
    → All IsSeed seeds
    → map (λ host. drop_port (trim_space host)) (map written seeds) ≡ map (λ s. s.host) seeds
map-drop_port [] v = refl
map-drop_port (s ∷ seeds) v =
    ap₂ ◌∷◌ (ap drop_port v.0.trimmed ∙ drop_port-written s v.0) (map-drop_port seeds v.1)

-- The address list of a connection string names every seed node by its host alone, in order,
-- whatever the scheme is and whichever nodes carry a port; for seed nodes whose parts hold none of
-- the bytes that part a connection string.
address_list-connection :
    (scheme : Str) (s : Seed) (seeds : List Seed)
    → has_byte b':' scheme ≡ false
    → All IsSeed (s ∷ seeds)
    → address_list (connection scheme (s ∷ seeds))
      ≡ join (bytes ", ") (map (λ t. t.host) (s ∷ seeds))
unfolding address_list
address_list-connection scheme s seeds h v =
    rw
      (
        is_nil-append_cons scheme b':' (bytes "//" ++ join (bytes ",") (map written (s ∷ seeds))),
        drop_scheme-connection scheme (s ∷ seeds) h,
        before_any-lacks (bytes "/?") (join (bytes ",") (map written (s ∷ seeds)))
            (lacks_path-join (s ∷ seeds) v),
        split-join b',' (written s) (map written seeds) (no_commas (s ∷ seeds) v),
        map-drop_port (s ∷ seeds) v,
      )
      refl

first_seed :
    (s : Seed) (seeds : List Seed)
    → IsSeed s
    → before_any (bytes ",/?") (join (bytes ",") (map written (s ∷ seeds))) ≡ written s
unfolding join
first_seed s [] v = before_any-lacks (bytes ",/?") (written s) v.plain_text
first_seed s (t ∷ seeds) v =
    before_any-first (bytes ",/?") (written s) (join (bytes ",") (map written (t ∷ seeds))) b','
      v.plain_text refl

not_suffix : (c : ℕ) (s suffix : Str) → str_eq (c ∷ (s ++ suffix)) suffix ≡ false
not_suffix c s suffix =
    str_eq-false (c ∷ (s ++ suffix)) suffix
      (λ e. omega (arith, ap length e, length-append s suffix))

trim_suffix-append : (s suffix : Str) → is_nil suffix ≡ false → trim_suffix suffix (s ++ suffix) ≡ s
unfolding trim_suffix
trim_suffix-append [] [] h = cc
trim_suffix-append [] (c ∷ suffix) h = ground (arith, str_eq_refl (c ∷ suffix))
trim_suffix-append (c ∷ s) suffix h =
    ground (arith, not_suffix c s suffix, trim_suffix-append s suffix h)

first_host :
    (scheme : Str) (s : Seed) (seeds : List Seed)
    → has_byte b':' scheme ≡ false
    → IsSeed s
    → drop_port (before_any (bytes ",/?") (drop_scheme (connection scheme (s ∷ seeds)))) ≡ s.host
first_host scheme s seeds h v =
    ap (λ t. drop_port (before_any (bytes ",/?") t)) (drop_scheme-connection scheme (s ∷ seeds) h)
    ∙ ap drop_port (first_seed s seeds v)
    ∙ drop_port-written s v

first_label-srv :
    (host region rest : Str)
    → has_byte b'.' region ≡ false
    → host ≡ region ++ (bytes "-srv" ++ (b'.' ∷ rest))
    → trim_suffix (bytes "-srv") (first_label host) ≡ region
unfolding first_label has_byte
first_label-srv host region rest h e =
    let same : host ≡ (region ++ bytes "-srv") ++ (b'.' ∷ rest) =
      e ∙ sym (append_assoc region (bytes "-srv") (b'.' ∷ rest)) in
    let plain : has_byte b'.' (region ++ bytes "-srv") ≡ false =
      ground (arith, has_byte-append b'.' region (bytes "-srv")) in
    let label : first_label host ≡ region ++ bytes "-srv" =
      rw same (ground (arith, cut_byte-append b'.' (region ++ bytes "-srv") rest plain)) in
    ap (trim_suffix (bytes "-srv")) label ∙ trim_suffix-append region (bytes "-srv") refl

connection-nonempty :
    (scheme : Str) (s : Seed) (seeds : List Seed) → is_nil (connection scheme (s ∷ seeds)) ≡ false
connection-nonempty scheme s seeds =
    is_nil-append_cons scheme b':' (bytes "//" ++ join (bytes ",") (map written (s ∷ seeds)))

-- Of a first seed node whose host is an IP address, the label is the address.
cluster_label-ip :
    (is_ip : Str → Bool) (scheme : Str) (s : Seed) (seeds : List Seed)
    → has_byte b':' scheme ≡ false
    → IsSeed s
    → is_ip s.host ≡ true
    → cluster_label is_ip (connection scheme (s ∷ seeds)) ≡ s.host
unfolding cluster_label
cluster_label-ip is_ip scheme s seeds h v ip =
    ground (arith, first_host scheme s seeds h v, connection-nonempty scheme s seeds, ip)

-- The label of a cluster is that of its first seed node: a DNS name `region-srv.rest` gives the
-- region, whatever the scheme, the port and the further nodes are.
cluster_label-connection :
    (is_ip : Str → Bool) (scheme : Str) (s : Seed) (seeds : List Seed) (region rest : Str)
    → has_byte b':' scheme ≡ false
    → IsSeed s
    → is_ip s.host ≡ false
    → has_byte b'.' region ≡ false
    → s.host ≡ region ++ (bytes "-srv" ++ (b'.' ∷ rest))
    → cluster_label is_ip (connection scheme (s ∷ seeds)) ≡ region
unfolding cluster_label
cluster_label-connection is_ip scheme s seeds region rest h v dns plain e = ground (
  arith,
  first_host scheme s seeds h v,
  connection-nonempty scheme s seeds,
  dns,
  first_label-srv s.host region rest plain e,
)
