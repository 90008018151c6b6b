-- ===== src/Lib.antt =====
-- The AI service of MKC (ai-service/app), a Python service that turns uploaded documents and recordings
-- into chunks with vectors, finds the chunks that answer a question, and answers it with citations.
--
-- The parts and how they interact. `ChunkingService` cuts a text into chunks, which are stored with
-- their vectors. `RetrievalService` embeds a question, searches the vector store and hands a prompt
-- with the best chunks to the language model. `HybridRetrievalService` does the search on two paths,
-- BM25 and vectors, fuses them by rank and reranks the result. `CitationService` turns the markers of
-- an answer into citations of the chunks. `MemoryService` stores turns of a conversation in the same
-- vector store, and searches them for the next question. `AgentRunner` drives the nodes of a workflow
-- over these services, and turns what they do into a stream of events.
--
-- Files and the code they model:
--   Exceptions           ai-service/app/core/exceptions.py; a call that may raise gives a `Result`
--   Models               ai-service/app/models/retrieval.py and vector_record.py
--   Chunking             ai-service/app/services/chunking: `ChunkingConfig.__post_init__` (`post_init`),
--                        `TokenEstimator`, `Chunk`, `_make_chunk`
--   Chunking/Base        base_chunker.py: `_split_text`, `_merge_pieces`, `_split_chars`
--   Chunking/Fixed       fixed_token_chunker.py: `split` with its two binary searches
--   Chunking/Paragraph   paragraph_chunker.py, Chunking/Semantic semantic_chunker.py
--   Chunking/Service     chunking_service.py: `chunk`
--   Retrieval            ai-service/app/services/retrieval/retrieval_service.py: `retrieve` as
--                        `find_candidates` and `deliver`, with one function for each method
--   Hybrid               ai-service/app/services/hybrid_retrieval and models/hybrid_retrieval.py
--   Hybrid/Fusion        rrf.py, Hybrid/Bm25 bm25_store.py, Hybrid/Rerank reranker.py
--   Hybrid/Cache         the cache of BM25 indexes, an association list with the oldest entry first
--   Hybrid/Pipeline      hybrid_retrieval_service.py: `retrieve`, with the cache passed along
--   Citation             citation_formatter.py, citation_validator.py, citation_service.py
--   Memory               ai-service/app/services/memory/memory_service.py
--   Runs                 a computation with a log and a result, for services that report on their way
--   Prelude              texts as lists of code points, dictionaries, decimals, scores and sorting
--   Tests                the data and runs that show that the hypotheses of the results can hold
--
--   Agent                ai-service/app/agent/state.py, router.py and models/agent.py
--   Agent/Nodes          agent/nodes/agent_nodes.py and agent/tools/retrieval_tool.py
--   Agent/Runner         agent/runner.py: `run_stream` as its list of events, its last state and the
--                        checkpoints; a part of a run is a `Run`, its events and its result
--   Embedding            ai-service/app/services/embedding/service.py
--   Indexing             ai-service/app/services/vector_indexing/vector_index_service.py; a run of it
--                        is the list of calls of the vector store, and the result
--   Subtitles            ai-service/app/services/segment_merger.py: `merge`, `split_long_segment`
--   Subtitles/Timecode   ai-service/app/utils/timecode.py and services/srt_generator.py: `generate`
--   Qa                   ai-service/app/services/qa_service.py: `stream_answer` as its list of events, with
--                        the turn that it saves
--   Stores               ai-service/app/vector_store: the filters, and what they select
--   Stores/Milvus        milvus_store.py, Stores/Chroma chroma_store.py: each with its client as a record
--   Summary              ai-service/app/services/summary/summary_service.py; Summary/Sections
--                        section_splitter.py, Summary/MapReduce map_reduce_summarizer.py
--   Pdf                  ai-service/app/services/pdf_parser_service.py, with the tests for scanned pages of
--                        pymupdf_extractor.py; a run is its reports and its result
--   Ocr                  ai-service/app/services/ocr_service.py; a run is what it did with the images
--   WebSearch            ai-service/app/agent/tools/web_search_tool.py; WebSearch/Limiter its limiter,
--                        WebSearch/Providers search_providers.py
--   Extraction           ai-service/app/services/extraction: tag_normalizer.py, entity_resolver.py and
--                        extraction_service.py
--   Llm                  ai-service/app/services/llm/llm_client.py
--   Llm/Relay            the same file, `sync_format_sse_stream`: the steps of its thread and its caller
--
-- Scores are a type with the operations of `Float`; what needs an order takes `IsOrdered`, which
-- holds of floats that are not NaN. Vectors are lists of such numbers. A dictionary of metadata is an
-- association list. Exceptions are values; a log message is left out.
--
-- Bounds and fuel: `Fixed.windows` takes the length of the text as fuel, since each window starts
-- behind the one before; `bisect` takes more rounds than its interval has elements; `split_chars_from`
-- takes one round more than the text has characters, which is enough where `chunk_size` is positive;
-- `batches_from` takes as many rounds as there are chunks, which is enough where `batch_size` is
-- positive; `slices_from` takes as many as there are characters, which is enough where `max_chars` is
-- positive; `process_batches` takes one round more than there are pages; `token_windows` takes as many
-- rounds as there are tokens, of which a round uses at least one; `digits_onto` takes one round more
-- than the number; `validate_loop` takes the recursion limit of the source. The results are about these
-- functions with that fuel, and say that the text is used up.
--
-- Parameters: tiktoken (`Encoder`), the embedding service, the vector store, SHA-1 and the prompt
-- template (`Backend`), jieba and rank-bm25 (`Engine`), the cross-encoder (`Model`), `str.lower`, the
-- digits of Unicode (`digit`), the identifiers of `uuid4`, the readings of the clock, the search
-- providers, PyMuPDF with its renderer, the OCR engine and the clients of the vector stores.
--
-- Not modelled: the providers and engines behind those parameters, the HTTP layer, the storage and the
-- calls of the gateway, which are input and output; the speech recognition and the text cleaning; the
-- prompts of the language model; the spans, metrics and log messages; the fields of a citation that are
-- read from the metadata of its chunk.
pub mod Prelude
pub mod Exceptions
pub mod Chunking
pub mod Models
pub mod Retrieval
pub mod Hybrid
pub mod Citation
pub mod Memory
pub mod Agent
pub mod Embedding
pub mod Extraction
pub mod Indexing
pub mod Subtitles
pub mod Llm
pub mod Ocr
pub mod Pdf
pub mod Qa
pub mod Runs
pub mod Stores
pub mod Summary
pub mod Tests
pub mod WebSearch
