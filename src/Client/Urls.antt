-- ===== src/Client/Urls.antt =====
-- The URLs that internal/axonops/client.go builds for topics and connectors, with `p` around every
-- segment that comes from a resource.
use Prim.Native.Char.{code}
use text.Mathlib.TextLemmas.{cons-append, nil-append}
use axonops_operator.Prelude.{
  ℕ, ◌+◌, String, false, ◌≡◌, refl, ◌<>◌, nat_eq, has_code, if◌then◌else◌, arith,
}
use axonops_operator.Client.{Client, path_escape}
use axonops_operator.Client.Escape.{kept, has_code-path_escape}
use axonops_operator.Client.Kafka.{kafka_url, topics_url, topic_url, connect_url, connector_url}

-- How often a character stands in a text.
unfoldable pub occurrences : ℕ → String → ℕ
occurrences k String.[] = 0
occurrences k (String.◌∷◌ c s) = (if nat_eq (code c) k then 1 else 0) + occurrences k s

occurrences-append :
    (k : ℕ) (s t : String) → occurrences k (s <> t) ≡ occurrences k s + occurrences k t
unfolding occurrences
occurrences-append k String.[] t = rw nil-append (omega arith)
occurrences-append k (String.◌∷◌ c s) t =
    rw (cons-append c s t) (ground (arith, occurrences-append k s t))

occurrences-absent : (k : ℕ) (s : String) → has_code k s ≡ false → occurrences k s ≡ 0
unfolding occurrences has_code
occurrences-absent k String.[] h = refl
occurrences-absent k (String.◌∷◌ c s) h = ground (arith, occurrences-absent k s)

module _ (k : ℕ) (special : kept k ≡ false) (percent_sign : nat_eq 37 k ≡ false) where
  -- An escaped segment, and what is in front of it.
  occurrences-segment : (s t : String) → occurrences k (s <> path_escape t) ≡ occurrences k s
  occurrences-segment s t = ground (
    arith,
    occurrences-append k s (path_escape t),
    occurrences-absent k (path_escape t) (has_code-path_escape k special percent_sign t),
  )

  -- The fixed parts of the two URLs.
  occurrences-kafka_url :
      (c : Client) (cluster : String)
      → occurrences k (kafka_url c cluster)
        ≡ occurrences k c.base_url + (occurrences k "/api/v1/" + occurrences k "/kafka/")
  unfolding kafka_url
  occurrences-kafka_url c cluster = ground (
    arith,
    occurrences-append k c.base_url
        ("/api/v1/" <> path_escape c.org_id <> "/kafka/" <> path_escape cluster),
    occurrences-append k "/api/v1/" (path_escape c.org_id <> "/kafka/" <> path_escape cluster),
    occurrences-append k (path_escape c.org_id) ("/kafka/" <> path_escape cluster),
    occurrences-absent k (path_escape c.org_id)
        (has_code-path_escape k special percent_sign c.org_id),
    occurrences-segment "/kafka/" cluster,
  )

  occurrences-topic_url :
      (c : Client) (cluster name : String)
      → occurrences k (topic_url c cluster name)
        ≡ occurrences k c.base_url
          + (occurrences k "/api/v1/"
              + occurrences k "/kafka/"
              + occurrences k "/topics"
              + occurrences k "/")
  unfolding topic_url topics_url
  occurrences-topic_url c cluster name = ground (
    arith,
    occurrences-append k (kafka_url c cluster <> "/topics") ("/" <> path_escape name),
    occurrences-append k (kafka_url c cluster) "/topics",
    occurrences-kafka_url c cluster,
    occurrences-segment "/" name,
  )

  occurrences-connector_url :
      (c : Client) (cluster connect name : String)
      → occurrences k (connector_url c cluster connect name)
        ≡ occurrences k c.base_url
          + (occurrences k "/api/v1/"
              + occurrences k "/kafka/"
              + occurrences k "/connect/"
              + occurrences k "/")
  unfolding connector_url connect_url
  occurrences-connector_url c cluster connect name = ground (
    arith,
    occurrences-append k (kafka_url c cluster <> "/connect/" <> path_escape connect)
        ("/" <> path_escape name),
    occurrences-append k (kafka_url c cluster) ("/connect/" <> path_escape connect),
    occurrences-kafka_url c cluster,
    occurrences-segment "/connect/" connect,
    occurrences-segment "/" name,
  )

-- The names of clusters, topics and connectors, and the organisation, do not change the shape of a
-- URL, whatever characters they hold: the URL of a topic has seven slashes more than the base URL
-- and that of a connector eight, and neither has a question mark or a number sign more.
pub urls_keep_shape :
    (c : Client) (cluster connect name : String)
    → (occurrences b'/' (topic_url c cluster name) ≡ occurrences b'/' c.base_url + 7)
      × (occurrences b'?' (topic_url c cluster name) ≡ occurrences b'?' c.base_url)
      × (occurrences b'#' (topic_url c cluster name) ≡ occurrences b'#' c.base_url)
      × (occurrences b'/' (connector_url c cluster connect name) ≡ occurrences b'/' c.base_url + 8)
      × (occurrences b'?' (connector_url c cluster connect name) ≡ occurrences b'?' c.base_url)
      × (occurrences b'#' (connector_url c cluster connect name) ≡ occurrences b'#' c.base_url)
unfolding occurrences kept
urls_keep_shape c cluster connect name = (
  occurrences-topic_url b'/' refl refl c cluster name,
  ground (arith, occurrences-topic_url b'?' refl refl c cluster name),
  ground (arith, occurrences-topic_url b'#' refl refl c cluster name),
  occurrences-connector_url b'/' refl refl c cluster connect name,
  ground (arith, occurrences-connector_url b'?' refl refl c cluster connect name),
  ground (arith, occurrences-connector_url b'#' refl refl c cluster connect name),
)
