-- ===== src/Backend.antt =====
-- The form of a backend (`kindMeta`, `knownURLs`, `syncKind`) and the hint for the name of a download
-- (`syncPullPlaceholder`). Objects that are used as maps are lists of entries. (An address or a kind
-- named like a property that every object inherits, such as "constructor", is outside this model.)
pub mod Laws
use mikrollm.Base.{
  ℕ, Option, none, some, Bool, true, false, not, ◌&&◌, ◌||◌, List, [], ◌∷◌, if◌then◌else◌, ◌==◌,
  text_eq, nat_eq, any,
}
use mikrollm.Base.Text.{Text, lit, is_empty}

-- An entry of `kindMeta`.
pub record Meta : Type 0 where
  pub url : Text
  pub hint : Text
  pub token : Bool
  pub fill : Bool

abbrev pub meta : Text → Text → Bool → Bool → Meta
meta url hint token fill = record { url = url; hint = hint; token = token; fill = fill }

unfoldable pub ollama_meta : Meta
unfolding lit
ollama_meta =
    meta (lit "http://192.168.88.82:11434")
      (lit "Локальный Ollama: pull, load/unload и удаление файла — из админки.") false false

-- The keys of `kindMeta` and their entries.
unfoldable pub kind_meta : List (Text × Meta)
unfolding lit
kind_meta =
    (lit "ollama", ollama_meta)
    ∷ (
      lit "vllm",
      meta (lit "http://192.168.88.82:8000")
          (lit
            "vLLM не меняет модель через API. На сервере: vllm serve <HuggingFace-id> --host 0.0.0.0 --port 8000.")
          false false,
    )
    ∷ (
      lit "lmstudio",
      meta (lit "http://192.168.88.82:1234")
          (lit "LM Studio: включите локальный сервер (Developer). Pull и load/unload — из админки.")
          false false,
    )
    ∷ (
      lit "openrouter",
      meta (lit "https://openrouter.ai/api/v1")
          (lit "Прямое облако. API-ключ с openrouter.ai/keys. Свой GPU-сервер не нужен.") true true,
    )
    ∷ (
      lit "ollama-cloud",
      meta (lit "https://ollama.com")
          (lit
            "Только облачные модели ollama.com, без локального Ollama. Ключ: ollama.com/settings/keys.")
          true true,
    )
    ∷ (
      lit "opencomfy",
      meta (lit "http://192.168.88.252:8788")
          (lit
            "ComfyUI через OpenComfy (картинки и видео). URL без /v1. Ключ sk- из keys.yaml OpenComfy.")
          true false,
    )
    ∷ (
      lit "codex",
      meta (lit "https://chatgpt.com/backend-api/codex")
          (lit
            "Подписка ChatGPT. На компьютере: codex login, затем вставьте сюда файл ~/.codex/auth.json. Токен остаётся на этом узле. Alias можно включить в hub — соседи токен не увидят.")
          true true,
    )
    ∷ (
      lit "grok",
      meta (lit "https://cli-chat-proxy.grok.com/v1")
          (lit
            "Подписка SuperGrok. На компьютере: grok login, затем вставьте сюда файл ~/.grok/auth.json. Токен остаётся на этом узле. Alias можно включить в hub — соседи токен не увидят.")
          true true,
    )
    ∷ []

unfoldable pub known_urls : List Text
unfolding lit
known_urls =
    lit "http://192.168.88.82:11434"
    ∷ lit "http://192.168.88.82:8000"
    ∷ lit "http://192.168.88.82:1234"
    ∷ lit "https://openrouter.ai/api/v1"
    ∷ lit "https://ollama.com"
    ∷ lit "http://192.168.88.252:8788"
    ∷ lit "https://chatgpt.com/backend-api/codex"
    ∷ lit "https://cli-chat-proxy.grok.com/v1"
    ∷ []

unfoldable pub is_known : Text → Bool
is_known url = any (λ u. u == url) known_urls

abbrev pub lookup : Text → List (Text × Meta) → Meta → Meta
lookup kind [] d = d
lookup kind ((k, m) ∷ rest) d = if k == kind then m else lookup kind rest d

-- `kindMeta[kindSel.value] || kindMeta.ollama`
unfoldable pub meta_of : Text → Meta
meta_of kind = lookup kind kind_meta ollama_meta

-- `url.replace(/\/$/, "")`
unfoldable pub without_slash : Text → Text
without_slash [] = []
without_slash (c ∷ []) = if c == 47 then [] else c ∷ []
without_slash (c ∷ d ∷ url) = c ∷ without_slash (d ∷ url)

-- The elements of the form.
pub record Form : Type 0 where
  pub kind : Text
  pub url : Text
  pub placeholder : Text
  pub hint : Text
  pub token_required : Bool
  pub token_label : Text

-- The address after a change of the kind: one of the user's own stays.
unfoldable pub synced_url : Meta → Text → Text
synced_url m url =
    let cur = without_slash url in
    if is_empty cur || is_known cur
    then if m.fill then m.url else if is_known cur then [] else url
    else url

unfoldable pub sync_kind : Form → Form
unfolding lit
sync_kind f =
    let m = meta_of f.kind in
    record f {
      url = synced_url m f.url;
      placeholder = m.url;
      hint = m.hint;
      token_required = m.token;
      token_label = if m.token then lit "API-ключ (обязательно)" else lit "Токен (необязательно)";
    }

-- The user chooses a kind.
unfoldable pub choose_kind : Text → Form → Form
choose_kind kind f = sync_kind (record f { kind = kind })

-- `syncPullPlaceholder`, from `data-kind` of the chosen backend.
unfoldable pub pull_placeholder : Text → Text
unfolding lit
pull_placeholder kind =
    if kind == lit "lmstudio"
    then lit "ibm/granite-4-micro или huggingface.co/…"
    else lit "llama3.2 или qwen3.8:27b-mlx"
