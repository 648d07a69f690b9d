-- ===== src/Fs/Same.antt =====
-- What a reader finds depends on the tree alone, not on the calls that will fail.
use git_agentic.Common.{◌≡◌, refl, ap, [], ◌∷◌, nat_eq, list_eq}
use git_agentic.Common.Dict.{get}
use git_agentic.Fs.{Disk, stat, content, bytes_of}
use git_agentic.Fs.Paths.{FilePath}

pub content_of_nodes : (d e : Disk) (q : FilePath) → d.nodes ≡ e.nodes → content d q ≡ content e q
unfolding stat
content_of_nodes d e [] h = refl
content_of_nodes d e (c ∷ q) h = ap (λ n. bytes_of (get n (c ∷ q))) h
